-- ===== src/LinkedList/Splice.antt =====
-- What the four writes of `insertVal` between two nodes do to a chain.
use innopolis_networks_s.Base.{◌≡◌, refl, ◌≢◌, false, Option, some, List, [], ◌∷◌, ◌++◌, arith}
use innopolis_networks_s.Memory.{Ptr, null, write}
use innopolis_networks_s.LinkedList.{Node}
use innopolis_networks_s.LinkedList.Layout.{
  node, Cell, first_or, last_or, node_at, Chain, Apart, Chain-write, Chain-prev, Chain-next,
  Chain-join, last_or-append,
}

module _ {V : Type 0} where
  pub Apart-last :
      (zs ys : List (Cell V)) (z : Cell V) → Apart (zs ++ z ∷ []) ys → node_at z.addr ys ≡ false
  Apart-last [] ys z h = h.0
  Apart-last (x ∷ zs) ys z h = Apart-last zs ys z h.1

  pub Apart-first :
      (xs ys : List (Cell V)) (y : Cell V) → Apart xs (y ∷ ys) → node_at y.addr xs ≡ false
  Apart-first [] ys y h = refl
  Apart-first (x ∷ xs) ys y h = ground (arith, Apart-first xs ys y h.1)

  pub Apart-cons :
      (xs ys : List (Cell V)) (c : Cell V)
      → node_at c.addr xs ≡ false
      → Apart xs ys
      → Apart xs (c ∷ ys)
  Apart-cons [] ys c out h = tt
  Apart-cons (x ∷ xs) ys c out h = (ground arith, Apart-cons xs ys c (ground arith) h.1)

  pub last-cell :
      (f : Ptr → Option (Node V)) (p q : Ptr) (zs : List (Cell V)) (z : Cell V)
      → Chain f p q (zs ++ z ∷ [])
      → (z.addr ≢ null) × (f z.addr ≡ some (node z.val q (last_or p zs)))
  last-cell f p q [] z h = (h.0, h.1)
  last-cell f p q (x ∷ zs) z h = last-cell f x.addr q zs z h.3

  -- The four writes of a splice between `z` and `y`, on the memory's contents.
  module _ (f : Ptr → Option (Node V)) (zs ys : List (Cell V)) (z y c : Cell V) where
    abbrev pub linked : Ptr → Option (Node V)
    linked =
        write (write f c.addr (some (node c.val null z.addr))) c.addr
          (some (node c.val y.addr z.addr))

    abbrev pub left_linked : Ptr → Option (Node V)
    left_linked = write linked z.addr (some (node z.val c.addr (last_or null zs)))

    abbrev pub spliced : Ptr → Option (Node V)
    spliced = write left_linked y.addr (some (node y.val (first_or null ys) c.addr))

    pub front_linked :
        Chain f null y.addr (zs ++ z ∷ [])
        → node_at c.addr (zs ++ z ∷ []) ≡ false
        → Chain linked null y.addr (zs ++ z ∷ [])
    front_linked front out =
        Chain-write (write f c.addr (some (node c.val null z.addr))) c.addr null y.addr
          (some (node c.val y.addr z.addr)) (zs ++ z ∷ []) out
          (Chain-write f c.addr null y.addr (some (node c.val null z.addr)) (zs ++ z ∷ []) out
            front)

    pub back_linked :
        Chain f z.addr null (y ∷ ys)
        → node_at c.addr (y ∷ ys) ≡ false
        → Chain linked z.addr null (y ∷ ys)
    back_linked back out =
        Chain-write (write f c.addr (some (node c.val null z.addr))) c.addr z.addr null
          (some (node c.val y.addr z.addr)) (y ∷ ys) out
          (Chain-write f c.addr z.addr null (some (node c.val null z.addr)) (y ∷ ys) out back)

    pub back_left :
        Chain linked z.addr null (y ∷ ys)
        → Apart (zs ++ z ∷ []) (y ∷ ys)
        → Chain left_linked z.addr null (y ∷ ys)
    back_left back apart =
        Chain-write linked z.addr z.addr null (some (node z.val c.addr (last_or null zs))) (y ∷ ys)
          (Apart-last zs (y ∷ ys) z apart) back

    front_spliced :
        Chain linked null y.addr (zs ++ z ∷ [])
        → Apart (zs ++ z ∷ []) (y ∷ ys)
        → Chain spliced null c.addr (zs ++ z ∷ [])
    front_spliced front apart =
        Chain-write left_linked y.addr null c.addr (some (node y.val (first_or null ys) c.addr))
          (zs ++ z ∷ []) (Apart-first (zs ++ z ∷ []) ys y apart)
          (Chain-next linked null y.addr c.addr zs z front)

    -- the address of the new node is that of no neighbour
    new_spliced :
        c.addr ≢ z.addr
        → c.addr ≢ y.addr
        → spliced c.addr ≡ some (node c.val y.addr (last_or null (zs ++ z ∷ [])))
    unfolding write
    new_spliced cz cy = rw (last_or-append null zs (z ∷ [])) (ground arith)

    -- after the four writes the new node stands between the two parts
    pub Chain-spliced :
        Chain f null y.addr (zs ++ z ∷ [])
        → Chain f z.addr null (y ∷ ys)
        → Apart (zs ++ z ∷ []) (y ∷ ys)
        → c.addr ≢ null
        → node_at c.addr (zs ++ z ∷ []) ≡ false
        → node_at c.addr (y ∷ ys) ≡ false
        → c.addr ≢ z.addr
        → c.addr ≢ y.addr
        → Chain spliced null null ((zs ++ z ∷ []) ++ c ∷ y ∷ ys)
    Chain-spliced front back apart ne outx outy cz cy =
        Chain-join spliced null null (zs ++ z ∷ []) (c ∷ y ∷ ys)
          (front_spliced (front_linked front outx) apart)
          (
            ne,
            new_spliced cz cy,
            outy,
            Chain-prev left_linked z.addr c.addr null y ys
                (back_left (back_linked back outy) apart),
          )
          (Apart-cons (zs ++ z ∷ []) (y ∷ ys) c outx apart)
