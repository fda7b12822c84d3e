-- ===== src/Peers/Distinct.antt =====
-- Pools of which no two nodes are equal, and every second node of a pool.
use innopolis_networks_s.Base.{◌≡◌, ◌+◌, ◌≤◌, Bool, true, List, [], ◌∷◌, ◌++◌, length, arith}
use innopolis_networks_s.LinkedList.Layout.{Cell}
use innopolis_networks_s.Peers.Laws.{Absent}

-- Every second one, the first not included.
abbrev pub skipped : {A : Type 0} → List A → List A
skipped [] = []
skipped (c ∷ []) = []
skipped (c ∷ d ∷ cs) = d ∷ skipped cs

pub length-skipped :
    {A : Type 0} (xs : List A) → length (skipped xs) + length (skipped xs) ≤ length xs
length-skipped [] = omega arith
length-skipped (c ∷ []) = omega arith
length-skipped (c ∷ d ∷ cs) = omega (arith, length-skipped cs)

module _ {V : Type 0} where
  Absent-append :
      (p : V → Bool) (xs ys : List (Cell V)) → Absent p xs → Absent p ys → Absent p (xs ++ ys)
  Absent-append p [] ys h k = k
  Absent-append p (x ∷ xs) ys h k = (h.0, Absent-append p xs ys h.1 k)

  module _ (memcmp_eq : V → V → Bool) where
    -- No value of `ys` is equal to one of `xs`.
    abbrev pub AllAbsent : (xs ys : List (Cell V)) → Type 0
    AllAbsent xs [] = Unit
    AllAbsent xs (c ∷ ys) = Absent (memcmp_eq c.val) xs × AllAbsent xs ys

    -- Each value is equal to itself and to no one before it.
    abbrev pub AllDistinct : List (Cell V) → Type 0
    AllDistinct [] = Unit
    AllDistinct (c ∷ cs) = (memcmp_eq c.val c.val ≡ true) × AllAbsent (c ∷ []) cs × AllDistinct cs

    pub AllAbsent-nil : (ys : List (Cell V)) → AllAbsent [] ys
    AllAbsent-nil [] = tt
    AllAbsent-nil (c ∷ ys) = (tt, AllAbsent-nil ys)

    pub AllAbsent-append :
        (xs xs' ys : List (Cell V)) → AllAbsent xs ys → AllAbsent xs' ys → AllAbsent (xs ++ xs') ys
    AllAbsent-append xs xs' [] h k = tt
    AllAbsent-append xs xs' (c ∷ ys) h k =
        (Absent-append (memcmp_eq c.val) xs xs' h.0 k.0, AllAbsent-append xs xs' ys h.1 k.1)

    AllAbsent-skipped : (xs ys : List (Cell V)) → AllAbsent xs ys → AllAbsent xs (skipped ys)
    AllAbsent-skipped xs [] h = tt
    AllAbsent-skipped xs (c ∷ []) h = tt
    AllAbsent-skipped xs (c ∷ d ∷ ys) h = (h.1.0, AllAbsent-skipped xs ys h.1.1)

    pub AllDistinct-skipped : (cs : List (Cell V)) → AllDistinct cs → AllDistinct (skipped cs)
    AllDistinct-skipped [] h = tt
    AllDistinct-skipped (c ∷ []) h = tt
    AllDistinct-skipped (c ∷ d ∷ cs) h =
        (h.2.0, AllAbsent-skipped (d ∷ []) cs h.2.1, AllDistinct-skipped cs h.2.2)
