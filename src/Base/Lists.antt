-- ===== src/Base/Lists.antt =====
-- Lists measured and indexed by native numbers, under the library's names.
use Prim.Native.Nat.{ℕ, zero, suc, ◌+◌, ◌-◌, ◌≤◌, min}
use mathlib.Core.Path.{◌≡◌, refl, ap}
use mathlib.Core.Logic.{◌⊎◌, inl, inr}
use mathlib.Core.List.{List, [], ◌∷◌, ◌++◌}
use mathlib.Core.Option.{Option, none, some}
use native.Mathlib.Omega.{arith}

module _ {ℓ} {A : Type ℓ} where
  abbrev pub length : List A → ℕ
  length [] = 0
  length (_ ∷ xs) = suc (length xs)

  abbrev pub get_elem? : List A → ℕ → Option A
  get_elem? [] i = none
  get_elem? (x ∷ xs) zero = some x
  get_elem? (x ∷ xs) (suc i) = get_elem? xs i

  abbrev pub take : ℕ → List A → List A
  take zero xs = []
  take (suc n) [] = []
  take (suc n) (x ∷ xs) = x ∷ take n xs

  abbrev pub drop : ℕ → List A → List A
  drop zero xs = xs
  drop (suc n) [] = []
  drop (suc n) (x ∷ xs) = drop n xs

  abbrev pub set : List A → ℕ → A → List A
  set [] i v = []
  set (x ∷ xs) zero v = v ∷ xs
  set (x ∷ xs) (suc i) v = x ∷ set xs i v

  abbrev pub replicate : ℕ → A → List A
  replicate zero a = []
  replicate (suc n) a = a ∷ replicate n a

  pub length-append : (xs ys : List A) → length (xs ++ ys) ≡ length xs + length ys
  length-append [] ys = omega arith
  length-append (x ∷ xs) ys = omega (arith, length-append xs ys)

  pub length-take : (n : ℕ) (xs : List A) → length (take n xs) ≡ min n (length xs)
  length-take zero xs = omega arith
  length-take (suc n) [] = omega arith
  length-take (suc n) (x ∷ xs) = omega (arith, length-take n xs)

  pub length-drop : (n : ℕ) (xs : List A) → length (drop n xs) ≡ length xs - n
  length-drop zero xs = omega arith
  length-drop (suc n) [] = omega arith
  length-drop (suc n) (x ∷ xs) = omega (arith, length-drop n xs)

  -- An index lies inside a list, and splits it there, or beyond it.
  pub split_at :
      (cs : List A) (i : ℕ)
      → ((xs : List A) × (ys : List A) × (c : A) × (cs ≡ xs ++ c ∷ ys) × (length xs ≡ i))
        ⊎ (length cs ≤ i)
  split_at [] i = inr (omega arith)
  split_at (c ∷ cs) zero = inl ([], cs, c, refl, refl)
  split_at (c ∷ cs) (suc i) = elim (split_at cs i) [
    | inl (xs, ys, d, e, k) ↦ inl (c ∷ xs, ys, d, ap (λ r. c ∷ r) e, ap suc k)
    | inr past ↦ inr (omega arith)
  ]

  pub get_elem?-append : (xs ys : List A) (c : A) → get_elem? (xs ++ c ∷ ys) (length xs) ≡ some c
  get_elem?-append [] ys c = refl
  get_elem?-append (x ∷ xs) ys c = get_elem?-append xs ys c

  pub get_elem?-beyond : (cs : List A) (i : ℕ) → length cs ≤ i → get_elem? cs i ≡ none
  get_elem?-beyond [] i h = refl
  get_elem?-beyond (c ∷ cs) zero h = absurd (omega arith)
  get_elem?-beyond (c ∷ cs) (suc i) h = get_elem?-beyond cs i (omega arith)

  pub set-append : (xs ys : List A) (c v : A) → set (xs ++ c ∷ ys) (length xs) v ≡ xs ++ v ∷ ys
  set-append [] ys c v = refl
  set-append (x ∷ xs) ys c v = ap (λ r. x ∷ r) (set-append xs ys c v)

  pub length-set : (xs : List A) (i : ℕ) (v : A) → length (set xs i v) ≡ length xs
  length-set [] i v = refl
  length-set (x ∷ xs) zero v = refl
  length-set (x ∷ xs) (suc i) v = ap suc (length-set xs i v)

  pub length-replicate : (n : ℕ) (x : A) → length (replicate n x) ≡ n
  length-replicate zero x = refl
  length-replicate (suc n) x = ap suc (length-replicate n x)

  pub take-append : (xs ys : List A) → take (length xs) (xs ++ ys) ≡ xs
  take-append [] ys = refl
  take-append (x ∷ xs) ys = ap (λ r. x ∷ r) (take-append xs ys)
