-- ===== src/LinkedList/Find.antt =====
-- `getVal` and `findVal`.
use innopolis_networks_s.Base.{
  Option, get_elem?, split_at, get_elem?-append, get_elem?-beyond, ap, sym, subst, ◌∙◌, and_false,
  ℕ, zero, suc, ◌+◌, ◌≤◌, ◌≡◌, refl, Bool, false, true, none, some, List, [], ◌∷◌, ◌++◌, arith,
  ==_of_ne, ==_of_eq, leb, Bool-cases, inl, inr, if◌then◌else◌, ℤ, pos, negsuc, length,
  length-append,
}
use innopolis_networks_s.Memory.{Ptr, null, Memory, load, crash, done}
use innopolis_networks_s.Memory.Access.{load-some}
use innopolis_networks_s.LinkedList.{
  Node, LinkedList, jump_to_node, jump, get_val, find_loop, find_val,
}
use innopolis_networks_s.LinkedList.Layout.{Cell, first_or, Chain, IsList, Chain-split}
use innopolis_networks_s.LinkedList.Access.{jump_lem}

abbrev pub value_of : {V : Type 0} → Option (Cell V) → Option V
value_of none = none
value_of (some c) = some c.val

module _ {V : Type 0} (m : Memory (Node V)) (l : LinkedList) where
  -- `getVal` at the index of `c` returns the value of `c` and leaves the memory as it was.
  pub get_val_lem :
      (xs ys : List (Cell V)) (c : Cell V)
      → IsList m l (xs ++ c ∷ ys)
      → get_val l (length xs) m ≡ done (some c.val) m
  unfolding get_val jump_to_node
  get_val_lem xs ys c h =
      let inside : leb l.size (length xs) ≡ false =
        ground (arith, h.size, length-append xs (c ∷ ys)) in
      let (front, back, apart) = Chain-split m.cell null null xs (c ∷ ys) h.chain in
      rw (
        inside,
        h.head,
        jump_lem m null null xs (c ∷ ys) h.chain,
        load-some m c.addr _ back.0 back.1,
      )

  -- On a list that is not empty, `getVal` at an index of the length or more returns no value, and
  -- leaves the memory as it was.
  pub get_val-beyond :
      (c : Cell V) (cs : List (Cell V)) (ix : ℕ)
      → IsList m l (c ∷ cs)
      → length (c ∷ cs) ≤ ix
      → get_val l ix m ≡ done none m
  unfolding get_val
  get_val-beyond c cs ix h past =
      let out : leb l.size ix ≡ true = ground (arith, h.size) in
      rw (out, ==_of_ne l.size 0 (omega (arith, h.size)))

  -- On a list that is not empty, `getVal` at every index returns the value that the list has there, and
  -- none if it has none, and leaves the memory as it was.
  pub get_val-get_elem? :
      (c : Cell V) (cs : List (Cell V)) (ix : ℕ)
      → IsList m l (c ∷ cs)
      → get_val l ix m ≡ done (value_of (get_elem? (c ∷ cs) ix)) m
  get_val-get_elem? c cs ix h = elim (split_at (c ∷ cs) ix) [
    | inr past ↦
        get_val-beyond c cs ix h past
        ∙ ap (λ o. done (value_of o) m) (sym (get_elem?-beyond (c ∷ cs) ix past))
    | inl (xs, ys, d, e, k) ↦
        ap (λ i. get_val l i m) (sym k)
        ∙ get_val_lem xs ys d (subst (IsList m l) e h)
        ∙ ap (λ o. done (value_of o) m) (sym (get_elem?-append xs ys d))
        ∙ ap (λ ds. done (value_of (get_elem? ds (length xs))) m) (sym e)
        ∙ ap (λ i. done (value_of (get_elem? (c ∷ cs) i)) m) k
  ]

  -- On an empty list `getVal` reads memory through NULL, whatever the index.
  pub get_val-nil : (ix : ℕ) → IsList m l [] → get_val l ix m ≡ crash
  unfolding get_val jump_to_node jump load
  get_val-nil zero h = rw (==_of_eq l.size 0 h.size, and_false (leb l.size 0), h.head)
  get_val-nil (suc ix) h = rw (==_of_eq l.size 0 h.size, and_false (leb l.size (suc ix)), h.head)

-- The first place from `i` on where a value is found.
unfoldable pub position : {V : Type 0} → (V → Bool) → ℕ → List (Cell V) → ℤ
position p i [] = negsuc 0
position p i (c ∷ cs) = if p c.val then pos i else position p (i + 1) cs

module _ {V : Type 0} (memcmp_eq : V → V → Bool) (m : Memory (Node V)) where
  find_loop_lem :
      (v : V) (i : ℕ) (p : Ptr) (cs : List (Cell V))
      → Chain m.cell p null cs
      → find_loop memcmp_eq v (length cs) i (first_or null cs) m
        ≡ done (position (memcmp_eq v) i cs) m
  unfolding find_loop position
  find_loop_lem v i p [] h = refl
  find_loop_lem v i p (c ∷ cs) h =
      rw (load-some m c.addr _ h.0 h.1) (elim (Bool-cases (memcmp_eq v c.val)) [
        | inl e ↦ rw e
        | inr e ↦ rw e (find_loop_lem v (i + 1) c.addr cs h.3)
      ])

  -- `findVal` returns the index of the first value of the list that `memcmp` finds equal to the
  -- value wanted (`position`), and -1 if there is none, and leaves the memory as it was.
  pub find_val_lem :
      (l : LinkedList) (v : V) (cs : List (Cell V))
      → IsList m l cs
      → find_val memcmp_eq l v m ≡ done (position (memcmp_eq v) 0 cs) m
  unfolding find_val
  find_val_lem l v cs h = rw (h.head, h.size) (find_loop_lem v 0 null cs h.chain)
