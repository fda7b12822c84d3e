-- ===== src/Pipe/Server/Start.antt =====
-- The setup of the server, before its loop.
use innopolis_networks_s.Base.{
  inr, ℕ, zero, suc, refl, inl, inr, Bool, true, false, not, Option, none, some, List, [], ◌∷◌,
  arith, ◌==◌, ==_of_ne, Bool-cases, negsuc, if◌then◌else◌,
}
use innopolis_networks_s.Memory.{Ptr, null, Memory, Allocator, write, pure}
use innopolis_networks_s.Memory.Ends
use innopolis_networks_s.Memory.Ends.{Ends, ends}
use innopolis_networks_s.Memory.Alloc.{Bounded, Bounded-filled, Allocated, failed, given, alloc_lem}
use innopolis_networks_s.Stack.{Obj, stack_block, empty_stack}
use innopolis_networks_s.Stack.Layout.{Holds}
use innopolis_networks_s.Pipe.Server.{
  Message, serving, Server, Setup, start, gone, is_hello, open_stack, client_failed, waiting, ready,
  no_memory,
}
use innopolis_networks_s.Pipe.Server.Spec.{MayRefuse, begin, greeted, refused}
use innopolis_networks_s.Pipe.Server.Dispatch.{always}
use innopolis_networks_s.Pipe.Server.Refines.{Agrees, live, dead}

empty-Holds : (m : Memory Obj) → Bounded m → Holds m empty_stack []
empty-Holds m b = record { top = refl; size = refl; fits = omega arith; chain = tt; bounded = b }

module _ (al : Allocator Obj) where
  -- What the setup leaves, for some answer of the allocator.
  abbrev pub Begun : Setup → Server → Memory Obj → Type 0
  Begun u srv m = (ok : Bool) × MayRefuse al ok × Agrees m srv (begin ok u)

  gone_lem : (m : Memory Obj) (out : List Message) → Bounded m → Agrees m (gone out) (refused out)
  gone_lem m out b = dead empty_stack null out (negsuc 0) (empty-Holds m b) (inl refl)

  opened_lem :
      {m : Memory Obj} {p : Ptr} {m' : Memory Obj}
      → Bounded m
      → Allocated al m stack_block p m'
      → (ok : Bool) × MayRefuse al ok
        × Agrees m'
            (if p == null then gone (waiting ∷ no_memory ∷ []) else record {
              stack = empty_stack;
              block = p;
              log = waiting ∷ ready ∷ [];
              status = serving;
            })
            (greeted ok (some 1))
  unfolding write
  opened_lem {m} b (failed e) = (false, inr e, gone_lem _ _ b)
  opened_lem {m} b (given p ne free) = rw (==_of_ne p null ne) (
    true,
    always al,
    live empty_stack p _ [] (empty-Holds _ (Bounded-filled m p _ b)) ne (ground arith),
  )

  open_stack_lem :
      (m : Memory Obj)
      → Bounded m
      → Ends
          (λ srv m'. (ok : Bool) × MayRefuse al ok × Agrees m' srv (greeted ok (some 1)))
          (open_stack al m)
  open_stack_lem m b = Ends.seq (alloc_lem al stack_block m b) λ p m' out. ends (opened_lem b out)

  hello_lem :
      (h : Option ℕ) (m : Memory Obj)
      → Bounded m
      → Ends
          (λ srv m'. (ok : Bool) × MayRefuse al ok × Agrees m' srv (greeted ok h))
          ((if not (is_hello h) then pure (gone (waiting ∷ client_failed ∷ [])) else open_stack al)
            m)
  hello_lem none m b = ends (true, always al, gone_lem m _ b)
  hello_lem (some zero) m b = ends (true, always al, gone_lem m _ b)
  hello_lem (some (suc zero)) m b = open_stack_lem m b
  hello_lem (some (suc (suc n))) m b =
      rw (==_of_ne (suc (suc n)) 1 (omega arith)) (ends (true, always al, gone_lem m _ b))

  pub start_lem : (u : Setup) (m : Memory Obj) → Bounded m → Ends (Begun u) (start al u m)
  unfolding start begin
  start_lem u m b = elim (Bool-cases u.created_ok) [
    | inl e ↦ elim (Bool-cases u.connected_ok) [
      | inl e' ↦ rw (e, e') (hello_lem u.hello m b)
      | inr e' ↦ rw (e, e') (ends (true, always al, gone_lem m _ b))
    ]
    | inr e ↦ rw e (ends (true, always al, gone_lem m _ b))
  ]
