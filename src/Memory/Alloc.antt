-- ===== src/Memory/Alloc.antt =====
-- What a call of the allocator does, and memories with an end to the addresses in use.
use innopolis_networks_s.Base.{
  ◌≡◌, ◌≢◌, ◌≤◌, ◌∙◌, inl, inr, none, arith, ◌==◌, eq_of_==, Bool-cases,
}
use innopolis_networks_s.Memory.{Ptr, null, Memory, Allocator, write, put, filled, missed, alloc}
use innopolis_networks_s.Memory.Ends.{Ends, ends}

module _ {O : Type 0} where
  -- Every address from the limit on is free.
  abbrev pub Bounded : Memory O → Type 0
  Bounded m = (a : Ptr) → m.limit ≤ a → m.cell a ≡ none

  -- The allocator answers NULL at a memory that is not full.
  abbrev pub Refuses : Allocator O → Type 0
  Refuses al = (m : Memory O) × Bounded m × (al.malloc m ≡ null)

  -- No object that was in use has changed or gone.
  abbrev pub Keeps : Memory O → Memory O → Type 0
  Keeps m m' = (a : Ptr) → m.cell a ≢ none → m'.cell a ≡ m.cell a

  pub data Allocated (al : Allocator O) (m : Memory O) (o : O) : Ptr → Memory O → Type 0 where
    failed : Refuses al → Allocated al m o null (missed m)
    given : (p : Ptr) → p ≢ null → m.cell p ≡ none → Allocated al m o p (filled m p o)

  pub alloc_lem :
      (al : Allocator O) (o : O) (m : Memory O) → Bounded m → Ends (Allocated al m o) (alloc al o m)
  unfolding alloc
  alloc_lem al o m b = elim (Bool-cases (al.malloc m == null)) [
    | inl e ↦ rw e (ends (failed (m, b, eq_of_== _ _ e)))
    | inr e ↦
        let ne : al.malloc m ≢ null = ground arith in
        rw e (ends (given (al.malloc m) ne (al.malloc_fresh m ne)))
  ]

  pub Keeps-filled : (m : Memory O) (p : Ptr) (o : O) → m.cell p ≡ none → Keeps m (filled m p o)
  unfolding write
  Keeps-filled m p o e a used = ground arith

  pub Keeps-trans : (m n o : Memory O) → Keeps m n → Keeps n o → Keeps m o
  Keeps-trans m n o h k a used = k a (rw (h a used) used) ∙ h a used

  pub Bounded-filled : (m : Memory O) (p : Ptr) (o : O) → Bounded m → Bounded (filled m p o)
  unfolding write
  Bounded-filled m p o b a h = ground (arith, b a)

  pub Bounded-cleared : (m : Memory O) (p : Ptr) → Bounded m → Bounded (put m p none)
  unfolding write
  Bounded-cleared m p b a h = ground (arith, b a)
