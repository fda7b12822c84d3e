-- ===== src/Pipe/Client/Session.antt =====
-- The client's requests served to their end.
use Prim.Native.String.{String}
use innopolis_networks_s.Base.{
  ℕ, zero, suc, ◌⊎◌, inl, inr, ◌≡◌, refl, ◌<◌, ◌≢◌, Bool, true, false, Option, none, some, List, [],
  ◌∷◌, ℤ, negsuc, arith, length, size_max, ap, ◌∙◌,
}
use innopolis_networks_s.Memory.{Memory, Allocator}
use innopolis_networks_s.Memory.Ends
use innopolis_networks_s.Memory.Ends.{Ends, ends}
use innopolis_networks_s.Memory.Alloc.{Bounded}
use innopolis_networks_s.Stack.{Obj}
use innopolis_networks_s.Pipe.Codes.{Request}
use innopolis_networks_s.Pipe.Server.{Server, Round, Setup, Status, serving, exited, server_job}
use innopolis_networks_s.Pipe.Server.Spec.{
  Op, quit, op_of, Served, Runs, end, next, perform_round, respond_to, after_read, at_status,
  greeted, begin,
}
use innopolis_networks_s.Pipe.Server.Refines.{Agrees, live, dead}
use innopolis_networks_s.Pipe.Server.Run.{server_job_lem}
use innopolis_networks_s.Pipe.Client.{Turn, client_job}
use innopolis_networks_s.Pipe.Client.Requests.{IsOperation, AllOperations, client_job-AllOperations}

-- The rounds of a server that is sent `qs` before the client closes its end of the pipe.
unfoldable pub session_rounds : List Request → List Round
session_rounds [] = record { read = none; write_ok = false } ∷ []
session_rounds (q ∷ qs) = record { read = some q; write_ok = true } ∷ session_rounds qs

respond_to-serving :
    (o : Op) (ok : Bool) (v : ℤ) (a : Served)
    → o ≢ quit
    → (respond_to ok o v true a).status ≡ serving
respond_to-serving quit ok v a h = absurd (h refl)
respond_to-serving _ ok v a h = refl

at_status-serving :
    (ok : Bool) (s : Status) (r : Round) (a : Served) {t : Status}
    → s ≡ serving
    → (after_read ok r.read r.write_ok a).status ≡ t
    → (at_status ok s r a).status ≡ t
at_status-serving ok s r a e h = rw e h

at_status-exited :
    (ok : Bool) (s : Status) (r : Round) (a : Served) {n : ℤ} {t : Status}
    → s ≡ exited n
    → a.status ≡ t
    → (at_status ok s r a).status ≡ t
at_status-exited ok s r a e h = rw e h

round-serving :
    (ok : Bool) (q : Request) (a : Served)
    → a.status ≡ serving
    → IsOperation q.code
    → (perform_round ok (record { read = some q; write_ok = true }) a).status ≡ serving
unfolding perform_round
round-serving ok q a e h =
    at_status-serving ok a.status _ a e (respond_to-serving (op_of q.code) ok q.arg a h.0)

close-round :
    (ok : Bool) (a : Served)
    → a.status ≡ serving
    → (perform_round ok (record { read = none; write_ok = false }) a).status ≡ exited (negsuc 0)
unfolding perform_round
close-round ok a e = at_status-serving ok a.status _ a e refl

round-exited :
    (ok : Bool) (r : Round) (a : Served) {n : ℤ}
    → a.status ≡ exited n
    → (perform_round ok r a).status ≡ exited n
unfolding perform_round
round-exited ok r a e = at_status-exited ok a.status r a e e

module _ {al : Allocator Obj} where
  Runs-nil : {a b : Served} → Runs al [] a b → b ≡ a
  Runs-nil end = refl

  Runs-cons :
      {r : Round} {rs : List Round} {a b : Served}
      → Runs al (r ∷ rs) a b
      → (ok : Bool) × Runs al rs (perform_round ok r a) b
  Runs-cons (next ok may run) = (ok, run)

  Runs-session :
      (qs : List Request) {a b : Served}
      → AllOperations qs
      → a.status ≡ serving
      → Runs al (session_rounds qs) a b
      → b.status ≡ exited (negsuc 0)
  unfolding session_rounds
  Runs-session [] {a} h e run =
      let (ok, rest) = Runs-cons run in
      ap (λ (x : Served). x.status) (Runs-nil rest) ∙ close-round ok a e
  Runs-session (q ∷ qs) {a} h e run =
      let (ok, rest) = Runs-cons run in Runs-session qs h.1 (round-serving ok q a e h.0) rest

  Runs-exited :
      {rs : List Round} {a b : Served} {n : ℤ}
      → Runs al rs a b
      → a.status ≡ exited n
      → b.status ≡ exited n
  Runs-exited end e = e
  Runs-exited (next {r} {a} ok may run) e = Runs-exited run (round-exited ok r a e)

Agrees-status :
    {m : Memory Obj} {srv : Server} {a : Served} → Agrees m srv a → srv.status ≡ a.status
Agrees-status (live s b l cs h ne is) = refl
Agrees-status (dead s b l n h freed) = refl

greeted-status :
    (ok : Bool) (h : Option ℕ)
    → ((greeted ok h).status ≡ serving) ⊎ ((greeted ok h).status ≡ exited (negsuc 0))
greeted-status ok none = inr refl
greeted-status ok (some zero) = inr refl
greeted-status true (some (suc zero)) = inl refl
greeted-status false (some (suc zero)) = inr refl
greeted-status ok (some (suc (suc n))) = inr refl

begin-status :
    (ok : Bool) (u : Setup)
    → ((begin ok u).status ≡ serving) ⊎ ((begin ok u).status ≡ exited (negsuc 0))
unfolding begin
begin-status ok u = ground (arith, greeted-status ok u.hello)

module _ (al : Allocator Obj) (lstrcmpi_eq : String → String → Bool) where
  session-exited :
      (ok : Bool) (u : Setup) (qs : List Request) {b : Served}
      → AllOperations qs
      → Runs al (session_rounds qs) (begin ok u) b
      → b.status ≡ exited (negsuc 0)
  session-exited ok u qs h run = elim (begin-status ok u) [
    | inl e ↦ Runs-session qs h e run
    | inr e ↦ Runs-exited run e
  ]

  -- Whatever the user types, the server thread that is sent the client's requests and then finds the
  -- pipe closed ends with -1, never with the 0 of SERVEREXIT, for every allocator, every setup and
  -- every memory below its limit, as long as the rounds are fewer than the greatest size.
  pub session_lem :
      (opened greeted : Bool) (ts : List Turn) (u : Setup) (m : Memory Obj)
      → Bounded m
      → length (session_rounds (client_job lstrcmpi_eq opened greeted ts).sent) < size_max
      → Ends
          (λ srv m'. srv.status ≡ exited (negsuc 0))
          (server_job al u (session_rounds (client_job lstrcmpi_eq opened greeted ts).sent) m)
  session_lem opened greeted ts u m bound room =
      let sent = (client_job lstrcmpi_eq opened greeted ts).sent in
      let ops = client_job-AllOperations lstrcmpi_eq opened greeted ts in
      Ends.weaken (server_job_lem al u (session_rounds sent) m bound room)
        λ srv m' (ok, may, (b, run, g)). Agrees-status g ∙ session-exited ok u sent ops run
