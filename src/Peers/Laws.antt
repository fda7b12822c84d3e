-- ===== src/Peers/Laws.antt =====
-- What becomes of the pool of nodes.
use mathlib.Core.List.{append_assoc}
use innopolis_networks_s.Base.{
  ltb, ℕ, ◌+◌, ◌<◌, ◌≡◌, refl, ap, ◌∙◌, Bool, true, false, List, [], ◌∷◌, ◌++◌, ℤ, pos, negsuc,
  arith, length, size_max, Bool-cases, inl, inr, length-append,
}
use innopolis_networks_s.Memory.{Memory, Cmd, Allocator, crash, done, pure, ◌>>=◌}
use innopolis_networks_s.Memory.Ends
use innopolis_networks_s.Memory.Ends.{Ends, ends}
use innopolis_networks_s.LinkedList.{Node, LinkedList, delete_val}
use innopolis_networks_s.LinkedList.Layout.{Cell, IsList}
use innopolis_networks_s.LinkedList.Insert.{Inserted, insert_val_lem}
use innopolis_networks_s.LinkedList.Remove.{Removed}
use innopolis_networks_s.LinkedList.Delete.{delete_val_lem, delete_val-one}
use innopolis_networks_s.LinkedList.Find.{get_val_lem, position, find_val_lem}
use innopolis_networks_s.Peers.{remove_loop, remove_inactive_node, parse_peer}

module _ {V : Type 0} where
  -- No element of the list satisfies the test.
  abbrev pub Absent : (V → Bool) → List (Cell V) → Type 0
  Absent p [] = Unit
  Absent p (c ∷ cs) = (p c.val ≡ false) × Absent p cs

  position-Absent :
      (p : V → Bool) (i : ℕ) (xs ys : List (Cell V)) (c : Cell V)
      → Absent p xs
      → p c.val ≡ true
      → position p i (xs ++ c ∷ ys) ≡ pos (i + length xs)
  unfolding position
  position-Absent p i [] ys c h e = rw e (ground arith)
  position-Absent p i (x ∷ xs) ys c h e =
      rw h.0 (position-Absent p (i + 1) xs ys c h.1 e ∙ ground arith)

  pub position-first :
      (p : V → Bool) (xs ys : List (Cell V)) (c : Cell V)
      → Absent p xs
      → p c.val ≡ true
      → position p 0 (xs ++ c ∷ ys) ≡ pos (length xs)
  position-first p xs ys c absent found = position-Absent p 0 xs ys c absent found ∙ ground arith

  pub position-none :
      (p : V → Bool) (i : ℕ) (cs : List (Cell V)) → Absent p cs → position p i cs ≡ negsuc 0
  unfolding position
  position-none p i [] h = refl
  position-none p i (c ∷ cs) h = rw h.0 (position-none p (i + 1) cs h.1)

  abbrev delete_at : LinkedList → ℤ → Cmd (Node V) LinkedList
  delete_at l (pos i) = do (l', _) ← delete_val l i; pure l'
  delete_at l (negsuc n) = pure l

  module _ (memcmp_eq : V → V → Bool) (m : Memory (Node V)) (l : LinkedList) where
    remove_loop_lem :
        (node : V) (xs ys : List (Cell V))
        → IsList m l (xs ++ ys)
        → remove_loop memcmp_eq node (length ys) (length xs) l m
          ≡ delete_at l (position (memcmp_eq node) (length xs) ys) m
    unfolding remove_loop position
    remove_loop_lem node xs [] h = refl
    remove_loop_lem node xs (y ∷ ys) h =
        let shift : length (xs ++ y ∷ []) ≡ length xs + 1 = length-append xs (y ∷ []) in
        let h' : IsList m l ((xs ++ y ∷ []) ++ ys) = rw append_assoc h in
        rw (get_val_lem m l xs ys y h) (elim (Bool-cases (memcmp_eq node y.val)) [
          | inl e ↦ rw e refl
          | inr e ↦ rw (e, ← shift) (remove_loop_lem node (xs ++ y ∷ []) ys h')
        ])

    remove_lem :
        (node : V) (xs ys : List (Cell V)) (c : Cell V)
        → IsList m l (xs ++ c ∷ ys)
        → Absent (memcmp_eq node) xs
        → memcmp_eq node c.val ≡ true
        → remove_inactive_node memcmp_eq l node m ≡ delete_at l (pos (length xs)) m
    unfolding remove_inactive_node
    remove_lem node xs ys c h absent found =
        ap (λ n. remove_loop memcmp_eq node n 0 l m) h.size
        ∙ remove_loop_lem node [] (xs ++ c ∷ ys) h
        ∙ ap (λ i. delete_at l i m) (position-first (memcmp_eq node) xs ys c absent found)

    -- In a pool of two or more nodes, `remove_inactive_node` deletes the first node that `memcmp` finds
    -- equal to the one that does not answer, and that node only (`Removed`).
    pub remove_inactive_node_lem :
        (node : V) (xs ys : List (Cell V)) (c : Cell V)
        → IsList m l (xs ++ c ∷ ys)
        → 1 < length (xs ++ c ∷ ys)
        → Absent (memcmp_eq node) xs
        → memcmp_eq node c.val ≡ true
        → Ends (Removed m xs ys c) (remove_inactive_node memcmp_eq l node m)
    remove_inactive_node_lem node xs ys c h many absent found =
        rw (remove_lem node xs ys c h absent found)
          (Ends.seq (delete_val_lem m l xs ys c h many) λ (l', r) m' q. ends q.1)

    -- Where the node that does not answer is the only one of the pool, `remove_inactive_node` crashes.
    pub remove_inactive_node-one :
        (node : V) (c : Cell V)
        → IsList m l (c ∷ [])
        → memcmp_eq node c.val ≡ true
        → remove_inactive_node memcmp_eq l node m ≡ crash
    remove_inactive_node-one node c h found =
        rw (remove_lem node [] [] c h tt found, delete_val-one m l c h) refl

    -- A pool without the node stays as it is, and so does the memory.
    pub remove_inactive_node-Absent :
        (node : V) (cs : List (Cell V))
        → IsList m l cs
        → Absent (memcmp_eq node) cs
        → remove_inactive_node memcmp_eq l node m ≡ done l m
    unfolding remove_inactive_node
    remove_inactive_node-Absent node cs h absent =
        ap (λ n. remove_loop memcmp_eq node n 0 l m) h.size
        ∙ remove_loop_lem node [] cs h
        ∙ ap (λ i. delete_at l i m) (position-none (memcmp_eq node) 0 cs absent)

    -- A peer that the pool has already is not added again: pool and memory stay as they are.
    pub parse_peer-known :
        (al : Allocator (Node V)) (node : V) (xs ys : List (Cell V)) (c : Cell V)
        → IsList m l (xs ++ c ∷ ys)
        → Absent (memcmp_eq node) xs
        → memcmp_eq node c.val ≡ true
        → parse_peer memcmp_eq al l node m ≡ done l m
    unfolding parse_peer
    parse_peer-known al node xs ys c h absent found =
        let first = position-first (memcmp_eq node) xs ys c absent found in
        let here : ltb (length xs) 0 ≡ false = ground arith in
        rw (find_val_lem memcmp_eq m l node (xs ++ c ∷ ys) h, first, here) refl

    -- A peer that the pool does not have becomes its first node, in a pool below the greatest size, or
    -- the pool stays as it was, if the allocator can refuse (`Inserted`).
    pub parse_peer-new :
        (al : Allocator (Node V)) (node : V) (cs : List (Cell V))
        → IsList m l cs
        → length cs + 1 < size_max
        → Absent (memcmp_eq node) cs
        → Ends
            (λ l' m'. (r : ℕ) × Inserted al m l node [] cs (l', r) m')
            (parse_peer memcmp_eq al l node m)
    unfolding parse_peer
    parse_peer-new al node cs h room absent =
        rw (find_val_lem memcmp_eq m l node cs h, position-none (memcmp_eq node) 0 cs absent)
          (Ends.seq (insert_val_lem al m l node [] cs h room) λ (l', r) m' q. ends (r, q))
