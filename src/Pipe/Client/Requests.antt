-- ===== src/Pipe/Client/Requests.antt =====
-- Which requests a client can send.
use Prim.Native.String.{String}
use innopolis_networks_s.Base.{◌≢◌, Bool, true, false, List, [], ◌∷◌, ◌++◌, ℤ, arith}
use innopolis_networks_s.Pipe.Codes.{Request, stack_push_code}
use innopolis_networks_s.Pipe.Server.Spec.{quit, ignore, op_of}
use innopolis_networks_s.Pipe.Client.{
  Turn, Scan, matched, no_match, end_of_file, Client, Command, plain, push, exit, unknown,
  command_of, exchange, client_round, client_rounds, client_job, obey, push_number,
}

-- The server knows the code, and it is not SERVEREXIT.
abbrev pub IsOperation : ℤ → Type 0
IsOperation c = (op_of c ≢ quit) × (op_of c ≢ ignore)

abbrev pub AllOperations : List Request → Type 0
AllOperations [] = Unit
AllOperations (q ∷ qs) = IsOperation q.code × AllOperations qs

All-snoc :
    (qs : List Request) (q : Request)
    → AllOperations qs
    → IsOperation q.code
    → AllOperations (qs ++ q ∷ [])
All-snoc [] q h k = (k, tt)
All-snoc (x ∷ qs) q h k = (h.0, All-snoc qs q h.1 k)

abbrev PlainIsOperation : Command → Type 0
PlainIsOperation (plain k) = IsOperation k
PlainIsOperation _ = Unit

exchange_lem :
    (t : Turn) (c : Client)
    → AllOperations c.sent
    → IsOperation c.buffer.code
    → AllOperations (exchange t c).sent
unfolding exchange
exchange_lem t c h k = ground (arith, All-snoc c.sent c.buffer h k)

push-IsOperation : IsOperation stack_push_code
unfolding op_of
push-IsOperation = (λ e. cc, λ e. cc)

push_number_lem :
    (n : Scan) (t : Turn) (c : Client)
    → IsOperation c.buffer.code
    → AllOperations c.sent
    → AllOperations (push_number n t c).sent
push_number_lem (matched v) t c k h = exchange_lem t _ h k
push_number_lem no_match t c k h = h
push_number_lem end_of_file t c k h = exchange_lem t c h k

obey_lem :
    (d : Command) (t : Turn) (c : Client)
    → PlainIsOperation d
    → AllOperations c.sent
    → AllOperations (obey d t c).sent
obey_lem (plain k) t c op h = exchange_lem t _ h op
obey_lem push t c op h = push_number_lem t.number t _ push-IsOperation h
obey_lem exit t c op h = h
obey_lem unknown t c op h = h

module _ (lstrcmpi_eq : String → String → Bool) where
  command_of_lem : (w : String) → PlainIsOperation (command_of lstrcmpi_eq w)
  unfolding command_of op_of
  command_of_lem w = ground arith

  client_round_lem :
      (t : Turn) (c : Client)
      → AllOperations c.sent
      → AllOperations (client_round lstrcmpi_eq t c).sent
  unfolding client_round
  client_round_lem t c h =
      ground (arith, obey_lem (command_of lstrcmpi_eq t.word) t c (command_of_lem t.word) h)

  client_rounds_lem :
      (ts : List Turn) (c : Client)
      → AllOperations c.sent
      → AllOperations (client_rounds lstrcmpi_eq ts c).sent
  unfolding client_rounds
  client_rounds_lem [] c h = h
  client_rounds_lem (t ∷ ts) c h = client_rounds_lem ts _ (client_round_lem t c h)

  -- Whatever the user types and the pipe does, every request that the client sends has a code that
  -- the server knows, and none is SERVEREXIT: EXIT closes the handle without telling the server.
  pub client_job-AllOperations :
      (opened greeted : Bool) (ts : List Turn)
      → AllOperations (client_job lstrcmpi_eq opened greeted ts).sent
  unfolding client_job
  client_job-AllOperations false greeted ts = tt
  client_job-AllOperations true false ts = tt
  client_job-AllOperations true true ts = client_rounds_lem ts _ tt
