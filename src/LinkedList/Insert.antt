-- ===== src/LinkedList/Insert.antt =====
-- `insertVal` at every index, and its refusals.
use innopolis_networks_s.Base.{
  and_false, ==_of_eq, [], if◌then◌else◌, ◌==◌, ℕ, ◌+◌, ◌<◌, ◌≡◌, refl, ◌≢◌, false, true, none,
  some, List, ◌∷◌, ◌++◌, arith, ◌==◌, ==_of_ne, length, size_max, ltb, ◌∙◌, length-append,
}
use innopolis_networks_s.Memory.{
  Cmd, pure, ◌>>=◌, Ptr, null, Memory, Allocator, write, done, filled, missed,
}
use innopolis_networks_s.Memory.Alloc.{Refuses, Bounded-filled, Allocated, failed, given, alloc_lem}
use innopolis_networks_s.Memory.Ends
use innopolis_networks_s.Memory.Ends.{Ends, ends}
use innopolis_networks_s.LinkedList.{Node, LinkedList, link_node, insert_val, new_node}
use innopolis_networks_s.LinkedList.Layout.{node, Cell, IsList, Chain-write, node_at_free}
use innopolis_networks_s.LinkedList.Link.{Ready, SameOutside}
use innopolis_networks_s.LinkedList.Cases.{link_node_lem}

module _ {V : Type 0} where
  -- Insertion puts the value between `xs` and `ys` in a node of its own, or the allocator refuses.
  pub data Inserted (al : Allocator (Node V)) (m : Memory (Node V)) (l : LinkedList) (v : V)
      (xs ys : List (Cell V)) : LinkedList × ℕ → Memory (Node V) → Type 0 where
    inserted :
        {l' : LinkedList} {m' : Memory (Node V)} (c : Cell V)
        → c.val ≡ v
        → m.cell c.addr ≡ none
        → IsList m' l' (xs ++ c ∷ ys)
        → SameOutside (xs ++ ys) c m.cell m'.cell
        → Inserted al m l v xs ys (l', 0) m'
    refused :
        {m' : Memory (Node V)}
        → Refuses al
        → IsList m' l (xs ++ ys)
        → m'.cell ≡ m.cell
        → Inserted al m l v xs ys (l, 1) m'

  IsList-missed :
      (m : Memory (Node V)) (l : LinkedList) (cs : List (Cell V))
      → IsList m l cs
      → IsList (missed m) l cs
  IsList-missed m l cs h = record {
    head = h.head;
    tail = h.tail;
    size = h.size;
    fits = h.fits;
    chain = h.chain;
    bounded = h.bounded;
  }

  Ready-filled :
      (m : Memory (Node V)) (l : LinkedList) (cs : List (Cell V)) (c : Cell V)
      → IsList m l cs
      → length cs + 1 < size_max
      → c.addr ≢ null
      → m.cell c.addr ≡ none
      → Ready (filled m c.addr (node c.val null null)) l cs c
  unfolding write
  Ready-filled m l cs c h room ne free =
      let out = node_at_free m.cell c.addr null null cs free h.chain in
      record {
        list = record {
          head = h.head;
          tail = h.tail;
          size = h.size;
          fits = h.fits;
          chain = Chain-write m.cell c.addr null null (some (node c.val null null)) cs out h.chain;
          bounded = Bounded-filled m c.addr (node c.val null null) h.bounded;
        };
        room = room;
        ne_null = ne;
        outside = out;
        node = ground arith;
        below = omega arith;
      }

  -- the part of `insertVal` behind the allocation
  abbrev place : LinkedList → ℕ → Ptr → Cmd (Node V) (LinkedList × ℕ)
  place l ix p = if p == null then pure (l, 1) else (do l' ← link_node l ix p; pure (l', 0))

  place_lem :
      (al : Allocator (Node V)) (m : Memory (Node V)) (l : LinkedList) (v : V)
      (xs ys : List (Cell V)) {p : Ptr} {m' : Memory (Node V)}
      → IsList m l (xs ++ ys)
      → length (xs ++ ys) + 1 < size_max
      → Allocated al m (node v null null) p m'
      → Ends (Inserted al m l v xs ys) (place l (length xs) p m')
  unfolding write
  place_lem al m l v xs ys h room (failed e) =
      ends (refused e (IsList-missed m l (xs ++ ys) h) refl)
  place_lem al m l v xs ys h room (given p ne free) =
      let c : Cell V = record { addr = p; val = v } in
      rw (==_of_ne p null ne) (
        Ends.seq
          (link_node_lem (filled m p (node v null null)) l xs ys c
            (Ready-filled m l (xs ++ ys) c h room ne free))
          λ l' m' (list, same).
            ends (inserted c refl free list (λ a out apart. same a out apart ∙ ground arith)))

  -- `insertVal` at every index from 0 to the length, in a list below the greatest size: it returns 0
  -- and the value stands between `xs` and `ys`, in a node that was not in use before, and nothing
  -- outside the list is changed; or it returns 1, with list and contents unchanged, which only an
  -- allocator that can refuse makes it do (`Inserted`).
  pub insert_val_lem :
      (al : Allocator (Node V)) (m : Memory (Node V)) (l : LinkedList) (v : V)
      (xs ys : List (Cell V))
      → IsList m l (xs ++ ys)
      → length (xs ++ ys) + 1 < size_max
      → Ends (Inserted al m l v xs ys) (insert_val al l (length xs) v m)
  unfolding insert_val new_node
  insert_val_lem al m l v xs ys h room =
      let inside : ltb l.size (length xs) ≡ false = ground (arith, h.size, length-append xs ys) in
      rw inside (
        Ends.seq (alloc_lem al (node v null null) m h.bounded)
          λ p m' out. place_lem al m l v xs ys h room out)

  -- On a list that is not empty, `insertVal` at an index beyond the length returns 1 and changes
  -- neither the list nor the memory.
  pub insert_val_beyond :
      (al : Allocator (Node V)) (m : Memory (Node V)) (l : LinkedList) (v : V) (ix : ℕ) (c : Cell V)
      (cs : List (Cell V))
      → IsList m l (c ∷ cs)
      → length (c ∷ cs) < ix
      → insert_val al l ix v m ≡ done (l, 1) m
  unfolding insert_val
  insert_val_beyond al m l v ix c cs h beyond =
      let past : ltb l.size ix ≡ true = ground (arith, h.size) in
      rw (past, ==_of_ne l.size 0 (omega (arith, h.size)))

  -- On an empty list `insertVal` does the same at every index as at 0: no index is refused.
  pub insert_val-nil :
      (al : Allocator (Node V)) (m : Memory (Node V)) (l : LinkedList) (v : V) (ix : ℕ)
      → IsList m l []
      → insert_val al l ix v m ≡ insert_val al l 0 v m
  unfolding insert_val link_node
  insert_val-nil al m l v ix h =
      rw (==_of_eq l.size 0 h.size, and_false (ltb l.size ix), and_false (ltb l.size 0)) refl
