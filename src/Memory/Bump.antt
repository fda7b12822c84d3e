-- ===== src/Memory/Bump.antt =====
-- An allocator: it takes the next address, and answers NULL where that is in use.
use innopolis_networks_s.Base.{
  ◌+◌, refl, ◌≡◌, ◌≢◌, Bool, true, false, Option, none, some, arith, if◌then◌else◌,
}
use innopolis_networks_s.Memory.{Ptr, null, Memory, Allocator}
use innopolis_networks_s.Memory.Alloc.{Bounded}

abbrev pub free_at : {O : Type 0} → Option O → Bool
free_at none = true
free_at (some o) = false

abbrev pub next_free : {O : Type 0} → Memory O → Ptr
next_free m = if free_at (m.cell (m.limit + 1)) then m.limit + 1 else null

pub next_free-fresh : {O : Type 0} (m : Memory O) → next_free m ≢ null → m.cell (next_free m) ≡ none
next_free-fresh m h = ground arith

abbrev pub bump : (O : Type 0) → Allocator O
bump O = record { malloc = next_free; malloc_fresh = next_free-fresh }

-- `bump` never refuses.
pub bump_reliable : {O : Type 0} (m : Memory O) → Bounded m → (bump O).malloc m ≢ null
bump_reliable m b = ground (arith, b (m.limit + 1))

-- An allocator that always refuses.
abbrev pub exhausted : (O : Type 0) → Allocator O
exhausted O = record { malloc = λ m. null; malloc_fresh = λ m h. absurd (h refl) }

abbrev pub blank : (O : Type 0) → Memory O
blank O = record { cell = λ a. none; calls = 0; limit = 0 }
