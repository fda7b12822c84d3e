-- ===== src/Memory.antt =====
-- The memory that the C code works on: objects of a type `O` at addresses, commands that read and
-- write them, and the allocator, which the programs only call and which is a parameter.
pub mod Access
pub mod Alloc
pub mod Bump
pub mod Ends
use Prim.Native.Nat.{max}
use innopolis_networks_s.Base.{ℕ, ◌+◌, ◌≡◌, ◌≢◌, Option, none, some, ◌==◌, if◌then◌else◌}

abbrev pub Ptr : Type 0
Ptr = ℕ

abbrev pub null : Ptr
null = 0

-- `calls` counts the calls of the allocator, so that its answers may differ at equal contents, and
-- `limit` lies above every address that it has given.
pub record Memory (O : Type 0) : Type 0 where
  pub cell : Ptr → Option O
  pub calls : ℕ
  pub limit : ℕ

-- `crash` is an access through NULL or to an address that holds no object of the wanted kind.
pub data Outcome (O A : Type 0) : Type 0 where
  done : A → Memory O → Outcome O A
  crash : Outcome O A
  out_of_fuel : Outcome O A

abbrev pub Cmd : Type 0 → Type 0 → Type 0
Cmd O A = Memory O → Outcome O A

-- `malloc` or `HeapAlloc`: NULL for a failure, else an address that is not in use.
pub record Allocator (O : Type 0) : Type 0 where
  pub malloc : Memory O → Ptr
  pub malloc_fresh : (m : Memory O) → malloc m ≢ null → m.cell (malloc m) ≡ none

module _ {O : Type 0} where
  unfoldable pub write : (Ptr → Option O) → Ptr → Option O → Ptr → Option O
  write f p c a = if a == p then c else f a

  abbrev pub put : Memory O → Ptr → Option O → Memory O
  put m p c = record m { cell = write m.cell p c }

  abbrev pub pure : {A : Type 0} → A → Cmd O A
  pure = done

  abbrev pub and_then : {A B : Type 0} → Outcome O A → (A → Cmd O B) → Outcome O B
  and_then (done a m) k = k a m
  and_then crash k = crash
  and_then out_of_fuel k = out_of_fuel

  infixl 5 ◌>>=◌ ◌>>◌
  abbrev pub ◌>>=◌ : {A B : Type 0} → Cmd O A → (A → Cmd O B) → Cmd O B
  c >>= k = λ m. and_then (c m) k

  abbrev pub ◌>>◌ : {A B : Type 0} → Cmd O A → Cmd O B → Cmd O B
  c >> d = c >>= λ _. d

  unfoldable pub load : Ptr → Cmd O O
  load p m = if p == null then crash else elim (m.cell p) [ none ↦ crash | some o ↦ done o m ]

  unfoldable pub store : Ptr → O → Cmd O (Unit {0})
  store p o = do load p; λ m. done tt (put m p (some o))

  -- `free` at an address in use. The programs never free NULL.
  unfoldable pub release : Ptr → Cmd O (Unit {0})
  release p = do load p; λ m. done tt (put m p none)

  -- The memory after a call of the allocator: at `p` what the caller writes into the block first.
  abbrev pub filled : Memory O → Ptr → O → Memory O
  filled m p o = record {
    cell = write m.cell p (some o);
    calls = m.calls + 1;
    limit = max m.limit (p + 1);
  }

  abbrev pub missed : Memory O → Memory O
  missed m = record m { calls = m.calls + 1 }

  unfoldable pub alloc : Allocator O → O → Cmd O Ptr
  alloc al o m =
      let p = al.malloc m in if p == null then done null (missed m) else done p (filled m p o)
