-- ===== src/Pipe/Server/Spec.antt =====
-- What the server promises, with a list of integers in place of the stack.
use innopolis_networks_s.Base.{
  ◌⊎◌, ℕ, if◌then◌else◌, zero, suc, Bool, true, false, Option, none, some, List, [], ◌∷◌, ◌++◌,
  length, ℤ, pos, negsuc, ◌≡◌,
}
use innopolis_networks_s.Memory.{Allocator}
use innopolis_networks_s.Memory.Alloc.{Refuses}
use innopolis_networks_s.Stack.{Obj}
use innopolis_networks_s.Pipe.Codes.{Request}
use innopolis_networks_s.Pipe.Server.{
  Message, peeked, popped, pushed, not_pushed, created, size_is, is_empty, displayed, help, stopped,
  responded, respond_failed, read_failed, Setup, waiting, ready, client_failed, no_memory,
  pipe_failed, connect_failed, Status, serving, exited, Round,
}

pub data Op : Type 0 where
  peek pop push clear size emptiness display explain quit ignore : Op

unfoldable pub op_of : ℤ → Op
op_of (negsuc (suc zero)) = explain
op_of (negsuc zero) = quit
op_of (pos zero) = peek
op_of (pos (suc zero)) = pop
op_of (pos (suc (suc zero))) = push
op_of (pos (suc (suc (suc zero)))) = clear
op_of (pos (suc (suc (suc (suc zero))))) = size
op_of (pos (suc (suc (suc (suc (suc zero)))))) = emptiness
op_of (pos (suc (suc (suc (suc (suc (suc zero))))))) = display
op_of _ = ignore

-- the top value, and -1 of an empty list
abbrev pub head_or : List ℤ → ℤ
head_or [] = negsuc 0
head_or (x ∷ xs) = x

abbrev pub rest : List ℤ → List ℤ
rest [] = []
rest (x ∷ xs) = xs

abbrev pub nil? : List ℤ → Bool
nil? [] = true
nil? (x ∷ xs) = false

-- The items and the messages after an operation; `ok` tells whether there is memory for a push.
unfoldable pub perform : Bool → Op → ℤ → List ℤ → List ℤ × List Message
perform ok peek v xs = (xs, peeked (head_or xs) ∷ [])
perform ok pop v xs = (rest xs, popped (head_or xs) ∷ [])
perform true push v xs = (v ∷ xs, pushed v ∷ [])
perform false push v xs = (xs, not_pushed ∷ [])
perform ok clear v xs = ([], created ∷ [])
perform ok size v xs = (xs, size_is (length xs) ∷ [])
perform ok emptiness v xs = (xs, is_empty (nil? xs) ∷ [])
perform ok display v xs = (xs, displayed xs ∷ [])
perform ok explain v xs = (xs, help ∷ [])
perform ok quit v xs = (xs, [])
perform ok ignore v xs = (xs, [])

pub record Served : Type 0 where
  pub items : List ℤ
  pub log : List Message
  pub status : Status

-- The state before the rounds, after each way in which the setup can go; `ok` tells whether there is
-- memory for the stack structure.
abbrev pub refused : List Message → Served
refused out = record { items = []; log = out; status = exited (negsuc 0) }

abbrev pub greeted : Bool → Option ℕ → Served
greeted ok none = refused (waiting ∷ client_failed ∷ [])
greeted ok (some zero) = refused (waiting ∷ client_failed ∷ [])
greeted true (some (suc zero)) = record { items = []; log = waiting ∷ ready ∷ []; status = serving }
greeted false (some (suc zero)) = refused (waiting ∷ no_memory ∷ [])
greeted ok (some (suc (suc n))) = refused (waiting ∷ client_failed ∷ [])

unfoldable pub begin : Bool → Setup → Served
begin ok u =
    if u.created_ok
    then (if u.connected_ok then greeted ok u.hello else refused (connect_failed ∷ []))
    else refused (pipe_failed ∷ [])

abbrev pub is_quit : Op → Bool
is_quit quit = true
is_quit _ = false

abbrev pub close : Served → List Message → ℤ → Served
close a out n = record { items = []; log = a.log ++ out; status = exited n }

abbrev pub conclude : Bool → List ℤ × List Message → List Message → Served
conclude true (xs, out) log = record {
  items = xs;
  log = (log ++ out) ++ responded ∷ [];
  status = serving;
}
conclude false (xs, out) log = record {
  items = [];
  log = (log ++ out) ++ respond_failed ∷ [];
  status = exited (negsuc 0);
}

abbrev pub respond_to : Bool → Op → ℤ → Bool → Served → Served
respond_to ok quit v w a = close a (stopped ∷ []) (pos 0)
respond_to ok o v w a = conclude w (perform ok o v a.items) a.log

abbrev pub after_read : Bool → Option Request → Bool → Served → Served
after_read ok none w a = close a (read_failed ∷ []) (negsuc 0)
after_read ok (some q) w a = respond_to ok (op_of q.code) q.arg w a

abbrev pub at_status : Bool → Status → Round → Served → Served
at_status ok serving r a = after_read ok r.read r.write_ok a
at_status ok (exited n) r a = a

unfoldable pub perform_round : Bool → Round → Served → Served
perform_round ok r a = at_status ok a.status r a

-- A refused push means that the allocator answers NULL at a memory that is not full.
abbrev pub MayRefuse : Allocator Obj → Bool → Type 0
MayRefuse al ok = (ok ≡ true) ⊎ Refuses al

-- A run of the specification: in each round the allocator decides on a push.
pub data Runs (al : Allocator Obj) : List Round → Served → Served → Type 0 where
  end : {a : Served} → Runs al [] a a
  next :
      {r : Round} {rs : List Round} {a b : Served} (ok : Bool)
      → MayRefuse al ok
      → Runs al rs (perform_round ok r a) b
      → Runs al (r ∷ rs) a b

-- All rounds, with memory for every push.
unfoldable pub perform_all : List Round → Served → Served
perform_all [] a = a
perform_all (r ∷ rs) a = perform_all rs (perform_round true r a)
