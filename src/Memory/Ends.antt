-- ===== src/Memory/Ends.antt =====
-- Total correctness of a command: it crashes nowhere, its fuel is enough, and a condition holds of
-- its result and of the memory that it leaves.
use innopolis_networks_s.Memory.{Memory, Outcome, done, crash, Cmd, and_then}
use innopolis_networks_s.Base.{◌≡◌}

pub data Ends {O A : Type 0} (Q : A → Memory O → Type 0) : Outcome O A → Type 0 where
  ends : {a : A} {m : Memory O} → Q a m → Ends Q (done a m)

module _ {O A : Type 0} {Q : A → Memory O → Type 0} where
  pub seq :
      {B : Type 0} {R : B → Memory O → Type 0} {r : Outcome O A} {k : A → Cmd O B}
      → Ends Q r
      → ((a : A) (m : Memory O) → Q a m → Ends R (k a m))
      → Ends R (and_then r k)
  seq (ends q) next = next _ _ q

  pub weaken :
      {R : A → Memory O → Type 0} {r : Outcome O A}
      → Ends Q r
      → ((a : A) (m : Memory O) → Q a m → R a m)
      → Ends R r
  weaken (ends q) f = ends (f _ _ q)

  -- What comes after a command that ends, where that crashes.
  pub seq_crash :
      {B : Type 0} {r : Outcome O A} {k : A → Cmd O B}
      → Ends Q r
      → ((a : A) (m : Memory O) → Q a m → k a m ≡ crash)
      → and_then r k ≡ crash
  seq_crash (ends q) next = next _ _ q
