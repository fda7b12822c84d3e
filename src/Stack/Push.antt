-- ===== src/Stack/Push.antt =====
-- What a push does to a stack in memory.
use innopolis_networks_s.Base.{
  ℕ, suc, ◌+◌, ◌<◌, ◌≡◌, refl, ◌≢◌, none, some, List, [], ◌∷◌, arith, ◌==◌, ==_of_ne, length,
  size_max, ℤ, pos, inl, inr, Bool-cases, eq_of_==, if◌then◌else◌,
}
use innopolis_networks_s.Memory.{Ptr, null, Memory, Allocator, write, filled, missed, pure}
use innopolis_networks_s.Memory.Ends
use innopolis_networks_s.Memory.Ends.{Ends, ends}
use innopolis_networks_s.Stack.{
  Obj, stack_node, int_cell, Stack, push_failed, stack_push, stack_push_int, link_top,
}
use innopolis_networks_s.Stack.Layout.{Cell, top_of, Holds, Chain-fill, node_at_free}
use innopolis_networks_s.Memory.Alloc.{
  Bounded-filled, Refuses, Keeps, Keeps-filled, Keeps-trans, Allocated, failed, given, alloc_lem,
}

-- The outcome of a push: a new element on top, or, when the allocator fails, the stack as it was.
pub data Pushed (al : Allocator Obj) (m : Memory Obj) (s : Stack) (v : ℤ) (cs : List Cell)
    : Stack × ℤ → Memory Obj → Type 0 where
  pushed :
      {s' : Stack} {m' : Memory Obj} (c : Cell)
      → c.value ≡ v
      → Holds m' s' (c ∷ cs)
      → Keeps m m'
      → Pushed al m s v cs (s', pos 0) m'
  full :
      {m' : Memory Obj}
      → Refuses al
      → Holds m' s cs
      → Keeps m m'
      → Pushed al m s v cs (s, push_failed) m'

-- the link that a push writes is the old top, also where the size is 0 and `top` is not read
link-top_of :
    (m : Memory Obj) (s : Stack) (cs : List Cell)
    → Holds m s cs
    → (if s.size == 0 then null else s.top) ≡ top_of cs
link-top_of m s [] h = rw h.size
link-top_of m s (c ∷ cs) h = rw (==_of_ne s.size 0 (omega (arith, h.size))) h.top

top-link_top : (s : Stack) (p : Ptr) → (link_top s p).top ≡ p
unfolding link_top
top-link_top s p = ground arith

size-link_top :
    (s : Stack) (p : Ptr) (n : ℕ) → s.size ≡ n → n + 1 < size_max → (link_top s p).size ≡ suc n
unfolding link_top
size-link_top s p n e room = elim (Bool-cases (s.size == 0)) [
  | inl z ↦ rw z (omega (arith, eq_of_== _ _ z))
  | inr z ↦ rw z (omega arith)
]

module _ (m : Memory Obj) (s : Stack) (cs : List Cell) where
  Holds-missed : Holds m s cs → Holds (missed m) s cs
  Holds-missed h = record {
    top = h.top;
    size = h.size;
    fits = h.fits;
    chain = h.chain;
    bounded = h.bounded;
  }

  Holds-push :
      (p d : Ptr) (v : ℤ)
      → Holds m s cs
      → length cs + 1 < size_max
      → p ≢ null
      → m.cell p ≡ none
      → d ≢ null
      → m.cell d ≡ some (int_cell v)
      → Holds
          (filled m p (stack_node (top_of cs) d))
          (link_top s p)
          (record { addr = p; content = d; value = v } ∷ cs)
  unfolding write
  Holds-push p d v h room ne free dne int = record {
    top = top-link_top s p;
    size = size-link_top s p (length cs) h.size room;
    fits = omega arith;
    chain = (
      ne,
      dne,
      ground arith,
      ground arith,
      node_at_free m.cell p cs free h.chain,
      Chain-fill m.cell p _ cs free h.chain,
    );
    bounded = Bounded-filled m p _ h.bounded;
  }

  -- The node is allocated and linked on top.
  stack_push-given :
      (al : Allocator Obj) (d : Ptr) (v : ℤ) {p : Ptr} {m' : Memory Obj}
      → Holds m s cs
      → length cs + 1 < size_max
      → d ≢ null
      → m.cell d ≡ some (int_cell v)
      → Allocated al m (stack_node (top_of cs) d) p m'
      → Pushed al m s v cs (if p == null then (s, push_failed) else (link_top s p, pos 0)) m'
  stack_push-given al d v h room ne int (failed e) = full e (Holds-missed h) (λ a used. refl)
  stack_push-given al d v h room ne int (given p pne free) = rw (==_of_ne p null pne) (
      pushed (record { addr = p; content = d; value = v }) refl
        (Holds-push p d v h room pne free ne int) (Keeps-filled m p _ free))

  pub stack_push_lem :
      (al : Allocator Obj) (d : Ptr) (v : ℤ)
      → Holds m s cs
      → length cs + 1 < size_max
      → d ≢ null
      → m.cell d ≡ some (int_cell v)
      → Ends (Pushed al m s v cs) (stack_push al s d m)
  unfolding stack_push
  stack_push_lem al d v h room ne int =
      rw (==_of_ne d null ne, link-top_of m s cs h)
        (Ends.seq (alloc_lem al (stack_node (top_of cs) d) m h.bounded)
          λ p m' out. ends (stack_push-given al d v h room ne int out))

  Holds-fill : (p : Ptr) (o : Obj) → Holds m s cs → m.cell p ≡ none → Holds (filled m p o) s cs
  Holds-fill p o h free = record {
    top = h.top;
    size = h.size;
    fits = h.fits;
    chain = Chain-fill m.cell p o cs free h.chain;
    bounded = Bounded-filled m p o h.bounded;
  }

-- What a push after a write to a free address has done to the memory before the write.
Pushed-before :
    (al : Allocator Obj) (m n : Memory Obj) (s : Stack) (v : ℤ) (cs : List Cell) {r : Stack × ℤ}
    {m' : Memory Obj}
    → Keeps m n
    → Pushed al n s v cs r m'
    → Pushed al m s v cs r m'
Pushed-before al m n s v cs keep (pushed {m' = o} c e h k) = pushed c e h (Keeps-trans m n o keep k)
Pushed-before al m n s v cs keep (full {m' = o} e h k) = full e h (Keeps-trans m n o keep k)

push_int-given :
    (al : Allocator Obj) (m : Memory Obj) (s : Stack) (cs : List Cell) (v : ℤ) {d : Ptr}
    {m' : Memory Obj}
    → Holds m s cs
    → length cs + 1 < size_max
    → Allocated al m (int_cell v) d m'
    → Ends
        (Pushed al m s v cs)
        ((if d == null then pure (s, push_failed) else stack_push al s d) m')
unfolding write
push_int-given al m s cs v h room (failed e) =
    ends (full e (Holds-missed m s cs h) (λ a used. refl))
push_int-given al m s cs v h room (given p ne free) = rw (==_of_ne p null ne) (
    Ends.weaken (stack_push_lem _ s cs al p v (Holds-fill m s cs p _ h free) room ne (ground arith))
      λ r m' q. Pushed-before al m _ s v cs (Keeps-filled m p _ free) q)

-- `stackPushInt` on a stack in memory that is below the greatest size: it returns 0 and the value
-- stands on top in a fresh node and a fresh integer, with the rest of memory unchanged; or it returns
-- -1 with the stack as it was, which only an allocator that can refuse makes it do (`Pushed`).
pub stack_push_int_lem :
    (al : Allocator Obj) (m : Memory Obj) (s : Stack) (cs : List Cell) (v : ℤ)
    → Holds m s cs
    → length cs + 1 < size_max
    → Ends (Pushed al m s v cs) (stack_push_int al s v m)
unfolding stack_push_int
stack_push_int_lem al m s cs v h room =
    Ends.seq (alloc_lem al (int_cell v) m h.bounded)
      λ d m' out. push_int-given al m s cs v h room out
