-- ===== src/LinkedList/Layout.antt =====
-- How a doubly linked list lies in memory.
use mathlib.Core.Bool.{or_assoc}
use innopolis_networks_s.Base.{
  ◌<◌, ◌≡◌, refl, ◌≢◌, Bool, false, ◌||◌, Option, none, some, List, [], ◌∷◌, ◌++◌, arith, ◌==◌,
  length, size_max,
}
use innopolis_networks_s.Memory.{Ptr, null, Memory, write}
use innopolis_networks_s.Memory.Alloc.{Bounded}
use innopolis_networks_s.LinkedList.{Node, LinkedList}

abbrev pub node : {V : Type 0} → V → Ptr → Ptr → Node V
node v q p = record { val = v; next = q; prev = p }

-- One element: the address of its node, and its value.
pub record Cell (V : Type 0) : Type 0 where
  pub addr : Ptr
  pub val : V

module _ {V : Type 0} where
  abbrev pub first_or : Ptr → List (Cell V) → Ptr
  first_or q [] = q
  first_or q (c ∷ cs) = c.addr

  abbrev pub last_or : Ptr → List (Cell V) → Ptr
  last_or p [] = p
  last_or p (c ∷ cs) = last_or c.addr cs

  abbrev pub node_at : Ptr → List (Cell V) → Bool
  node_at p [] = false
  node_at p (c ∷ cs) = p == c.addr || node_at p cs

  -- The segment `cs`, with `p` before it and `q` behind it: distinct nodes, linked both ways.
  abbrev pub Chain : (Ptr → Option (Node V)) → Ptr → Ptr → List (Cell V) → Type 0
  Chain f p q [] = Unit
  Chain f p q (c ∷ cs) =
      (c.addr ≢ null)
      × (f c.addr ≡ some (node c.val (first_or q cs) p))
      × (node_at c.addr cs ≡ false)
      × Chain f c.addr q cs

  abbrev pub Apart : List (Cell V) → List (Cell V) → Type 0
  Apart [] ys = Unit
  Apart (x ∷ xs) ys = (node_at x.addr ys ≡ false) × Apart xs ys

  pub record IsList (m : Memory (Node V)) (l : LinkedList) (cs : List (Cell V)) : Type 0 where
    pub head : l.head ≡ first_or null cs
    pub tail : l.tail ≡ last_or null cs
    pub size : l.size ≡ length cs
    pub fits : length cs < size_max
    pub chain : Chain m.cell null null cs
    pub bounded : Bounded m

  pub first_or-append :
      (q : Ptr) (xs ys : List (Cell V)) → first_or q (xs ++ ys) ≡ first_or (first_or q ys) xs
  first_or-append q [] ys = refl
  first_or-append q (x ∷ xs) ys = refl

  pub last_or-append :
      (p : Ptr) (xs ys : List (Cell V)) → last_or p (xs ++ ys) ≡ last_or (last_or p xs) ys
  last_or-append p [] ys = refl
  last_or-append p (x ∷ xs) ys = last_or-append x.addr xs ys

  pub node_at-append :
      (a : Ptr) (xs ys : List (Cell V)) → node_at a (xs ++ ys) ≡ (node_at a xs || node_at a ys)
  node_at-append a [] ys = refl
  node_at-append a (x ∷ xs) ys = rw (node_at-append a xs ys, or_assoc)

  pub Chain-write :
      (f : Ptr → Option (Node V)) (a p q : Ptr) (o : Option (Node V)) (cs : List (Cell V))
      → node_at a cs ≡ false
      → Chain f p q cs
      → Chain (write f a o) p q cs
  unfolding write
  Chain-write f a p q o [] out h = tt
  Chain-write f a p q o (c ∷ cs) out h =
      (h.0, ground arith, h.2, Chain-write f a c.addr q o cs (ground arith) h.3)

  pub node_at_free :
      (f : Ptr → Option (Node V)) (a p q : Ptr) (cs : List (Cell V))
      → f a ≡ none
      → Chain f p q cs
      → node_at a cs ≡ false
  node_at_free f a p q [] e h = refl
  node_at_free f a p q (c ∷ cs) e h = ground (arith, node_at_free f a c.addr q cs e h.3)

  -- a new node before the segment
  pub Chain-prev :
      (f : Ptr → Option (Node V)) (p p' q : Ptr) (c : Cell V) (cs : List (Cell V))
      → Chain f p q (c ∷ cs)
      → Chain (write f c.addr (some (node c.val (first_or q cs) p'))) p' q (c ∷ cs)
  unfolding write
  Chain-prev f p p' q c cs h = (h.0, ground arith, h.2, Chain-write f c.addr c.addr q _ cs h.2 h.3)

  -- a new node behind the segment
  pub Chain-next :
      (f : Ptr → Option (Node V)) (p q q' : Ptr) (cs : List (Cell V)) (c : Cell V)
      → Chain f p q (cs ++ c ∷ [])
      → Chain (write f c.addr (some (node c.val q' (last_or p cs)))) p q' (cs ++ c ∷ [])
  unfolding write
  Chain-next f p q q' [] c h = (h.0, ground arith, refl, tt)
  Chain-next f p q q' (b ∷ cs) c h = (
    h.0,
    ground (
      arith,
      node_at-append b.addr cs (c ∷ []),
      first_or-append q cs (c ∷ []),
      first_or-append q' cs (c ∷ []),
    ),
    h.2,
    Chain-next f b.addr q q' cs c h.3,
  )

  pub Chain-split :
      (f : Ptr → Option (Node V)) (p q : Ptr) (xs ys : List (Cell V))
      → Chain f p q (xs ++ ys)
      → Chain f p (first_or q ys) xs × Chain f (last_or p xs) q ys × Apart xs ys
  Chain-split f p q [] ys h = (tt, h, tt)
  Chain-split f p q (x ∷ xs) ys h =
      let (front, back, apart) = Chain-split f x.addr q xs ys h.3 in
      let out = node_at-append x.addr xs ys in
      ((h.0, rw (← first_or-append q xs ys) h.1, ground arith, front), back, (ground arith, apart))

  pub Chain-join :
      (f : Ptr → Option (Node V)) (p q : Ptr) (xs ys : List (Cell V))
      → Chain f p (first_or q ys) xs
      → Chain f (last_or p xs) q ys
      → Apart xs ys
      → Chain f p q (xs ++ ys)
  Chain-join f p q [] ys front back apart = back
  Chain-join f p q (x ∷ xs) ys front back apart = (
    front.0,
    rw (first_or-append q xs ys) front.1,
    ground (arith, node_at-append x.addr xs ys),
    Chain-join f x.addr q xs ys front.3 back apart.1,
  )
