-- ===== src/Pipe/Tests.antt =====
-- Sessions of the server and the client at concrete inputs.
use Prim.Native.String.{String}
use text.Mathlib.Text.{◌==◌ as str_eq}
use innopolis_networks_s.Base.{Bool, ◌≡◌, refl, true, some, List, [], ◌∷◌, arith, ℤ, pos, negsuc}
use innopolis_networks_s.Memory.{write, load, release, alloc}
use innopolis_networks_s.Memory.Bump.{bump, blank, bump_reliable}
use innopolis_networks_s.Memory.Ends.{Ends, ends}
use innopolis_networks_s.Stack.{
  Obj, empty_stack, stack_push_int, stack_pop_int, stack_clear, stack_peek_int, display_stack,
  stack_push, stack_pop, link_top, stack_peek, load_node, load_int,
}
use innopolis_networks_s.Pipe.Codes.{
  server_exit, stack_push_code, stack_pop_code, stack_display_code,
}
use innopolis_networks_s.Pipe.Server.{
  Setup, Round, Server, serving, exited, waiting, ready, pushed, popped, displayed, responded,
  stopped, server_job, start, serve, serve_round, answer, respond, dispatch, shut_down,
}
use innopolis_networks_s.Pipe.Server.Spec.{begin, perform_all, Runs, MayRefuse, Served}
use innopolis_networks_s.Pipe.Server.Refines.{Agrees}
use innopolis_networks_s.Pipe.Server.Run.{server_job_lem, server_job-perform_all}
use innopolis_networks_s.Pipe.Client.{
  Turn, matched, client_job, client_rounds, client_round, exchange, command_of,
}
use innopolis_networks_s.Pipe.Client.Requests.{AllOperations, client_job-AllOperations}
use innopolis_networks_s.Pipe.Client.Session.{session_rounds, session_lem}

abbrev ask : ℤ → ℤ → Round
ask c v = record { read = some (record { code = c; arg = v }); write_ok = true }

abbrev setup : Setup
setup = record { created_ok = true; connected_ok = true; hello = some 1 }

abbrev rounds : List Round
rounds =
    ask stack_push_code (pos 5)
    ∷ ask stack_push_code (negsuc 2)
    ∷ ask stack_display_code (pos 0)
    ∷ ask stack_pop_code (pos 0)
    ∷ ask server_exit (pos 0)
    ∷ []

server_runs :
    Ends
      (λ srv m.
        (srv.status ≡ exited (pos 0))
        × (srv.log
            ≡ waiting
              ∷ ready
              ∷ pushed (pos 5)
              ∷ responded
              ∷ pushed (negsuc 2)
              ∷ responded
              ∷ displayed (negsuc 2 ∷ pos 5 ∷ [])
              ∷ responded
              ∷ popped (negsuc 2)
              ∷ responded
              ∷ stopped
              ∷ []))
      (server_job (bump Obj) setup rounds (blank Obj))
unfolding server_job start serve serve_round answer respond dispatch shut_down stack_clear
    stack_push_int stack_push alloc write link_top display_stack load_node load_int load
    stack_pop_int stack_pop stack_peek release stack_peek_int
server_runs = ends (refl, refl)

server_job_lem_example :
    Ends
      (λ srv m'.
        (ok : Bool) × MayRefuse (bump Obj) ok
        × ((b : Served) × Runs (bump Obj) rounds (begin ok setup) b × Agrees m' srv b))
      (server_job (bump Obj) setup rounds (blank Obj))
server_job_lem_example =
    server_job_lem (bump Obj) setup rounds (blank Obj) (λ a h. refl) (omega arith)

server_job-perform_all_example :
    Ends
      (λ srv m'. Agrees m' srv (perform_all rounds (begin true setup)))
      (server_job (bump Obj) setup rounds (blank Obj))
server_job-perform_all_example =
    server_job-perform_all (bump Obj) setup rounds (blank Obj) (λ a h. refl) (omega arith)
      (λ (m, b, e). bump_reliable m b e)

abbrev turn : String → Turn
turn w = record { word = w; number = matched (pos 4); write_ok = true; reply = some 1 }

abbrev turns : List Turn
turns = turn "PUSH" ∷ turn "HELLO" ∷ turn "POP" ∷ turn "EXIT" ∷ turn "POP" ∷ []

client_sends :
    (client_job str_eq true true turns).sent
    ≡ record { code = stack_push_code; arg = pos 4 }
      ∷ record { code = stack_pop_code; arg = pos 4 }
      ∷ []
unfolding client_job client_rounds client_round exchange command_of
client_sends = refl

client_job-AllOperations_example : AllOperations (client_job str_eq true true turns).sent
client_job-AllOperations_example = client_job-AllOperations str_eq true true turns

session_lem_example :
    Ends
      (λ srv m'. srv.status ≡ exited (negsuc 0))
      (server_job
        (bump Obj)
        setup
        (session_rounds (client_job str_eq true true turns).sent)
        (blank Obj))
unfolding client_job client_rounds client_round exchange command_of session_rounds
session_lem_example =
    session_lem (bump Obj) str_eq true true turns setup (blank Obj) (λ a h. refl) (omega arith)

abbrev server : Server
server = record { stack = empty_stack; block = 1; log = []; status = serving }
