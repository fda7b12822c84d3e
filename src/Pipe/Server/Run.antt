-- ===== src/Pipe/Server/Run.antt =====
-- Whole runs of the server: the setup, then any number of rounds.
use innopolis_networks_s.Base.{
  inr, ℕ, zero, suc, ◌+◌, ◌<◌, ◌≤◌, ◌≡◌, refl, inl, inr, Bool, true, false, Option, none, some,
  List, [], ◌∷◌, arith, length, size_max, ℤ,
}
use innopolis_networks_s.Memory.{Memory, Allocator}
use innopolis_networks_s.Memory.Ends
use innopolis_networks_s.Memory.Ends.{Ends, ends}
use innopolis_networks_s.Memory.Alloc.{Bounded, Refuses}
use innopolis_networks_s.Stack.{Obj}
use innopolis_networks_s.Pipe.Codes.{Request}
use innopolis_networks_s.Pipe.Server.{
  Message, Status, serving, exited, Server, Round, Setup, serve, server_job,
}
use innopolis_networks_s.Pipe.Server.Spec.{
  Op, quit, op_of, perform, MayRefuse, Served, begin, greeted, perform_round, perform_all,
  after_read, at_status, conclude, respond_to, Runs, end, next,
}
use innopolis_networks_s.Pipe.Server.Refines.{Agrees, round_lem}
use innopolis_networks_s.Pipe.Server.Start.{start_lem}

length-greeted : (ok : Bool) (h : Option ℕ) → length (greeted ok h).items ≡ 0
length-greeted ok none = refl
length-greeted ok (some zero) = refl
length-greeted true (some (suc zero)) = refl
length-greeted false (some (suc zero)) = refl
length-greeted ok (some (suc (suc n))) = refl

length-begin : (ok : Bool) (u : Setup) → length (begin ok u).items ≡ 0
unfolding begin
length-begin ok u = ground (arith, length-greeted ok u.hello)

-- A round adds at most one item.
length-perform :
    (ok : Bool) (o : Op) (v : ℤ) (xs : List ℤ) → length (perform ok o v xs).0 ≤ length xs + 1
unfolding perform
length-perform ok o v xs = ground arith

length-conclude :
    (w : Bool) (p : List ℤ × List Message) (l : List Message)
    → length (conclude w p l).items ≤ length p.0
length-conclude true p l = omega arith
length-conclude false p l = omega arith

length-respond_to :
    (o : Op) (ok w : Bool) (v : ℤ) (a : Served)
    → length (respond_to ok o v w a).items ≤ length a.items + 1
length-respond_to quit ok w v a = omega arith
length-respond_to o ok w v a =
    omega (arith, length-perform ok o v a.items, length-conclude w (perform ok o v a.items) a.log)

length-after_read :
    (ok w : Bool) (q : Option Request) (a : Served)
    → length (after_read ok q w a).items ≤ length a.items + 1
length-after_read ok w none a = omega arith
length-after_read ok w (some q) a = length-respond_to (op_of q.code) ok w q.arg a

length-at_status :
    (ok : Bool) (s : Status) (r : Round) (a : Served)
    → length (at_status ok s r a).items ≤ length a.items + 1
length-at_status ok serving r a = length-after_read ok r.write_ok r.read a
length-at_status ok (exited n) r a = omega arith

length-perform_round :
    (ok : Bool) (r : Round) (a : Served) → length (perform_round ok r a).items ≤ length a.items + 1
unfolding perform_round
length-perform_round ok r a = length-at_status ok a.status r a

module _ (al : Allocator Obj) where
  serve_lem :
      (rs : List Round) (m : Memory Obj) (srv : Server) (a : Served)
      → Agrees m srv a
      → length a.items + length rs < size_max
      → Ends (λ srv' m'. (b : Served) × Runs al rs a b × Agrees m' srv' b) (serve al rs srv m)
  unfolding serve
  serve_lem [] m srv a g room = ends (a, end, g)
  serve_lem (r ∷ rs) m srv a g room =
      Ends.seq (round_lem al r m srv a g (omega arith)) λ srv' m' (ok, may, g').
        Ends.weaken
          (serve_lem rs m' srv' (perform_round ok r a) g'
            (omega (arith, length-perform_round ok r a)))
          λ srv'' m'' (b, run, g''). (b, next ok may run, g'')

  -- The whole of `ServerJob`, for every setup, every list of rounds shorter than the greatest size and
  -- every memory below its limit: it does not crash, its loops have fuel enough, and what it prints, the integers on its stack and the way it ends are those of
  -- a run of the specification, in which a push or the start fails only if the allocator fails.
  pub server_job_lem :
      (u : Setup) (rs : List Round) (m : Memory Obj)
      → Bounded m
      → length rs < size_max
      → Ends
          (λ srv m'.
            (ok : Bool) × MayRefuse al ok
            × ((b : Served) × Runs al rs (begin ok u) b × Agrees m' srv b))
          (server_job al u rs m)
  unfolding server_job
  server_job_lem u rs m bound room = Ends.seq (start_lem al u m bound) λ srv n (ok, may, g).
      Ends.weaken (serve_lem rs n srv (begin ok u) g (omega (arith, length-begin ok u)))
        λ srv' n' found. (ok, may, found)

  Runs-perform_all :
      {rs : List Round} {a b : Served} → ¬ Refuses al → Runs al rs a b → b ≡ perform_all rs a
  unfolding perform_all
  Runs-perform_all never end = refl
  Runs-perform_all never (next true may run) = Runs-perform_all never run
  Runs-perform_all never (next false may run) = elim may [ inl e ↦ cc | inr e ↦ absurd (never e) ]

  -- Under the same conditions, and with an allocator that never refuses, the server thread ends in a
  -- state that agrees with the specification's after all the rounds (`perform_all`).
  pub server_job-perform_all :
      (u : Setup) (rs : List Round) (m : Memory Obj)
      → Bounded m
      → length rs < size_max
      → ¬ Refuses al
      → Ends (λ srv m'. Agrees m' srv (perform_all rs (begin true u))) (server_job al u rs m)
  server_job-perform_all u rs m bound room never =
      Ends.weaken (server_job_lem u rs m bound room)
        λ srv m' (ok, may, (b, runs, g)). settled ok b may runs g
    where
      settled :
          {srv : Server} {m' : Memory Obj} (ok : Bool) (b : Served)
          → MayRefuse al ok
          → Runs al rs (begin ok u) b
          → Agrees m' srv b
          → Agrees m' srv (perform_all rs (begin true u))
      settled true b may runs g = rw (← Runs-perform_all never runs) g
      settled false b may runs g = elim may [ inl e ↦ cc | inr e ↦ absurd (never e) ]
