-- ===== src/LinkedList/Delete.antt =====
-- `deleteVal` of Lab 7 and of Lab 7 Windows, at every index.
use innopolis_networks_s.Base.{
  split_at, subst, ◌⊎◌, inl, inr, and_false, ℕ, zero, suc, ◌<◌, ◌≤◌, ◌≡◌, refl, false, true, List,
  [], ◌∷◌, ◌++◌, arith, ◌==◌, ==_of_ne, ==_of_eq, leb, Bool-cases, inl, inr, length, size_dec,
  length-append,
}
use innopolis_networks_s.Memory.{null, Memory, write, load, crash, done}
use innopolis_networks_s.Memory.Alloc.{Bounded-cleared}
use innopolis_networks_s.Memory.Access.{release-some}
use innopolis_networks_s.Memory.Ends
use innopolis_networks_s.Memory.Ends.{Ends, ends}
use innopolis_networks_s.LinkedList.{
  Node, LinkedList, unlink_node, jump_to_node, jump, delete_val, delete_val_windows, set_prev,
}
use innopolis_networks_s.LinkedList.Layout.{Cell, IsList}
use innopolis_networks_s.LinkedList.Remove.{Removed, cut_node, cut_node_lem}

module _ {V : Type 0} where
  module _ (m : Memory (Node V)) (l : LinkedList) where
    inside :
        (xs ys : List (Cell V)) (c : Cell V)
        → IsList m l (xs ++ c ∷ ys)
        → leb l.size (length xs) ≡ false
    inside xs ys c h = ground (arith, h.size, length-append xs (c ∷ ys))

    -- On a list of two or more nodes, `deleteVal` of Lab 7 at the index of `c` returns 0 and leaves
    -- the list of the elements before and behind it, with the node of `c` freed and every address
    -- outside the list unchanged (`Removed`).
    pub delete_val_lem :
        (xs ys : List (Cell V)) (c : Cell V)
        → IsList m l (xs ++ c ∷ ys)
        → 1 < length (xs ++ c ∷ ys)
        → Ends (λ (l', r) m'. (r ≡ 0) × Removed m xs ys c l' m') (delete_val l (length xs) m)
    unfolding delete_val cut_node
    delete_val_lem xs ys c h many = rw (inside xs ys c h) (cut_node_lem m l xs ys c h many)

    -- `deleteVal` of Lab 7 at index 0 of a list of one node accesses memory through NULL.
    pub delete_val-one : (c : Cell V) → IsList m l (c ∷ []) → delete_val l 0 m ≡ crash
    unfolding delete_val unlink_node set_prev load
    delete_val-one c h = rw (inside [] [] c h, h.head, ==_of_ne c.addr null h.chain.0, h.chain.1)

    -- `deleteVal` of Lab 7 accesses memory through NULL at every index of an empty list.
    pub delete_val-nil : (ix : ℕ) → IsList m l [] → delete_val l ix m ≡ crash
    unfolding delete_val unlink_node jump_to_node jump load
    delete_val-nil zero h = rw (==_of_eq l.size 0 h.size, and_false (leb l.size 0), h.head)
    delete_val-nil (suc ix) h = elim (Bool-cases (suc ix == size_dec l.size)) [
      | inl e ↦ rw (
        ==_of_eq l.size 0 h.size,
        and_false (leb l.size (suc ix)),
        ==_of_ne (suc ix) 0 (omega arith),
        e,
        h.tail,
      )
      | inr e ↦ rw (
        ==_of_eq l.size 0 h.size,
        and_false (leb l.size (suc ix)),
        ==_of_ne (suc ix) 0 (omega arith),
        e,
        h.head,
      )
    ]

    -- On a list that is not empty, `deleteVal` of Lab 7 at an index of the length or more returns 1
    -- and changes neither the list nor the memory.
    pub delete_val-beyond :
        (c : Cell V) (cs : List (Cell V)) (ix : ℕ)
        → IsList m l (c ∷ cs)
        → length (c ∷ cs) ≤ ix
        → delete_val l ix m ≡ done (l, 1) m
    unfolding delete_val
    delete_val-beyond c cs ix h past =
        let out : leb l.size ix ≡ true = ground (arith, h.size) in
        rw (out, ==_of_ne l.size 0 (omega (arith, h.size)))

    windows_one :
        (c : Cell V)
        → IsList m l (c ∷ [])
        → Ends (λ (l', r) m'. (r ≡ 0) × Removed m [] [] c l' m') (delete_val_windows l 0 m)
    unfolding delete_val_windows write
    windows_one c h =
        rw
          (
            inside [] [] c h,
            ==_of_eq l.size 1 h.size,
            h.head,
            release-some m c.addr _ h.chain.0 h.chain.1,
          )
          (ends (
            refl,
            (
              record {
                head = refl;
                tail = refl;
                size = refl;
                fits = omega arith;
                chain = tt;
                bounded = Bounded-cleared m c.addr h.bounded;
              },
              ground arith,
              λ a out. ground arith,
            ),
          ))

    windows_many :
        (xs ys : List (Cell V)) (c : Cell V)
        → IsList m l (xs ++ c ∷ ys)
        → 1 < length (xs ++ c ∷ ys)
        → Ends
            (λ (l', r) m'. (r ≡ 0) × Removed m xs ys c l' m')
            (delete_val_windows l (length xs) m)
    unfolding delete_val_windows cut_node
    windows_many xs ys c h many =
        rw (inside xs ys c h, ==_of_ne l.size 1 (omega (arith, h.size)))
          (cut_node_lem m l xs ys c h many)

    -- `deleteVal` of Lab 7 Windows at the index of `c`, in a list of any length, returns 0 and
    -- leaves the list of the elements before and behind it, with the node of `c` freed and every
    -- address outside the list unchanged (`Removed`).
    pub delete_val_windows_lem :
        (xs ys : List (Cell V)) (c : Cell V)
        → IsList m l (xs ++ c ∷ ys)
        → Ends
            (λ (l', r) m'. (r ≡ 0) × Removed m xs ys c l' m')
            (delete_val_windows l (length xs) m)
    delete_val_windows_lem [] [] c h = windows_one c h
    delete_val_windows_lem [] (y ∷ ys) c h = windows_many [] (y ∷ ys) c h (omega arith)
    delete_val_windows_lem (x ∷ xs) ys c h =
        windows_many (x ∷ xs) ys c h (omega (arith, length-append xs (c ∷ ys)))

    -- `deleteVal` of Lab 7 Windows at an index of the length or more returns 1 and changes neither
    -- the list nor the memory, whether the list is empty or not.
    pub delete_val_windows-beyond :
        (cs : List (Cell V)) (ix : ℕ)
        → IsList m l cs
        → length cs ≤ ix
        → delete_val_windows l ix m ≡ done (l, 1) m
    unfolding delete_val_windows
    delete_val_windows-beyond cs ix h past =
        let out : leb l.size ix ≡ true = ground (arith, h.size) in rw out

  -- What a deletion at `ix` leaves: the list without the element there, or all as it was.
  abbrev pub DeletedAt :
      Memory (Node V) → LinkedList → List (Cell V) → ℕ → LinkedList × ℕ → Memory (Node V) → Type 0
  DeletedAt m l cs ix (l', r) m' =
      ((xs : List (Cell V)) × (ys : List (Cell V)) × (c : Cell V) × (cs ≡ xs ++ c ∷ ys)
        × (length xs ≡ ix)
        × (r ≡ 0)
        × Removed m xs ys c l' m')
      ⊎ ((length cs ≤ ix) × (r ≡ 1) × (l' ≡ l) × (m' ≡ m))

  -- `deleteVal` of Lab 7 Windows never crashes on a list in memory, of whatever length and at whatever
  -- index: it returns 0 and leaves the list without the element at the index, with the node of that
  -- element freed and every address outside the list unchanged, or, if the index is the length or
  -- more, it returns 1 and changes neither the list nor the memory (`DeletedAt`).
  pub delete_val_windows-DeletedAt :
      (m : Memory (Node V)) (l : LinkedList) (cs : List (Cell V)) (ix : ℕ)
      → IsList m l cs
      → Ends (DeletedAt m l cs ix) (delete_val_windows l ix m)
  delete_val_windows-DeletedAt m l cs ix h = elim (split_at cs ix) [
    | inr past ↦
        rw (delete_val_windows-beyond m l cs ix h past) (ends (inr (past, refl, refl, refl)))
    | inl (xs, ys, c, e, k) ↦ rw (← k) (
        Ends.weaken (delete_val_windows_lem m l xs ys c (subst (IsList m l) e h))
          λ (l', r) m' (ok, removed). inl (xs, ys, c, e, refl, ok, removed))
  ]
