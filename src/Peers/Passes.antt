-- ===== src/Peers/Passes.antt =====
-- What the peers answer in the passes of a syncer over its pool.
use innopolis_networks_s.Base.{ℕ, ◌≤◌, List, [], ◌∷◌, length, arith}

module _ {A : Type 0} where
  abbrev pub AllOf : (A → Type 0) → List A → Type 0
  AllOf P [] = Unit
  AllOf P (x ∷ xs) = P x × AllOf P xs

  -- Each pass has an answer for each of `n` nodes, all of the wanted kind.
  abbrev pub AllPasses : (A → Type 0) → ℕ → List (List A) → Type 0
  AllPasses P n [] = Unit
  AllPasses P n (xs ∷ passes) = (AllOf P xs × (n ≤ length xs)) × AllPasses P n passes

  pub AllPasses-fewer :
      (P : A → Type 0) (k n : ℕ) (passes : List (List A))
      → k ≤ n
      → AllPasses P n passes
      → AllPasses P k passes
  AllPasses-fewer P k n [] le h = tt
  AllPasses-fewer P k n (xs ∷ passes) le h =
      ((h.0.0, omega (arith, h.0.1)), AllPasses-fewer P k n passes le h.1)

  module _ (P Q : A → Type 0) (weaken : (x : A) → P x → Q x) where
    AllOf-weaken : (xs : List A) → AllOf P xs → AllOf Q xs
    AllOf-weaken [] h = tt
    AllOf-weaken (x ∷ xs) h = (weaken x h.0, AllOf-weaken xs h.1)

    pub AllPasses-weaken :
        (n : ℕ) (passes : List (List A)) → AllPasses P n passes → AllPasses Q n passes
    AllPasses-weaken n [] h = tt
    AllPasses-weaken n (xs ∷ passes) h =
        ((AllOf-weaken xs h.0.0, h.0.1), AllPasses-weaken n passes h.1)
