-- ===== src/StudentServer.antt =====
-- The server of Lab 4 (Lab 4/server.c lines 18 to 181): it accepts one client at a time and answers
-- each student that the client sends with a line of text. `N` is the type of the names, `R` that of
-- the replies, and `sprintf` is a parameter. What `select`, `accept` and `recvfrom` give is data.
pub mod Laws
mod Tests
use innopolis_networks_s.Base.{
  ℕ, Bool, true, false, not, ◌&&◌, Option, none, some, List, [], ◌∷◌, ◌++◌, ◌==◌, if◌then◌else◌,
}
use innopolis_networks_s.Socket.{Recv, failed, closed, got, received}

-- `age` and `group` are `unsigned char`.
pub record Student (N : Type 0) : Type 0 where
  pub name : N
  pub age : ℕ
  pub group : ℕ

pub data Event (R : Type 0) : Type 0 where
  accepted : Event R
  replied : R → Event R
  hung_up : Event R

-- `blocked` is a wait in `select` for a client, and `blocked_in_session` one in `recvfrom`.
pub data End : Type 0 where
  blocked blocked_in_session returned : End
  exited : ℕ → End

pub record Trace (R : Type 0) : Type 0 where
  pub events : List (Event R)
  pub finish : End

-- What the calls before the loop give.
pub record Setup : Type 0 where
  pub socket_ok : Bool
  pub bind_ok : Bool
  pub listen_ok : Bool

abbrev pub before : {R : Type 0} → List (Event R) → Trace R → Trace R
before es t = record t { events = es ++ t.events }

module _ {N R : Type 0} (no_name : N) (sprintf : Student N → R) where
  -- `memset(&student_recieved, 0, sizeof(Student))`
  abbrev pub zero_student : Student N
  zero_student = record { name = no_name; age = 0; group = 0 }

  abbrev pub is_goodbye : Student N → Bool
  is_goodbye s = s.age == 0 && s.group == 0

  -- The inner `while (1)`: what is sent on one connection, and whether it was closed. On an error
  -- `recvfrom` gives -1 and leaves the student as `memset` made it.
  unfoldable pub serve_client : List (Recv (Student N)) → List (Event R) × Bool
  serve_client [] = ([], false)
  serve_client (closed ∷ rs) = (hung_up ∷ [], true)
  serve_client (failed ∷ rs) =
      let rest = serve_client rs in
      if is_goodbye zero_student
      then (hung_up ∷ [], true)
      else (replied (sprintf zero_student) ∷ rest.0, rest.1)
  serve_client (got s ∷ rs) =
      let rest = serve_client rs in
      if is_goodbye s then (hung_up ∷ [], true) else (replied (sprintf s) ∷ rest.0, rest.1)

  -- The outer `while (1)`; `none` is an `accept` that fails.
  unfoldable pub serve_all : List (Option (List (Recv (Student N)))) → Trace R
  serve_all [] = record { events = []; finish = blocked }
  serve_all (none ∷ cs) = record { events = []; finish = exited 0 }
  serve_all (some rs ∷ cs) =
      let rest = serve_all cs in
      let client = serve_client rs in
      if client.1
      then before (accepted ∷ client.0) rest
      else record { events = accepted ∷ client.0; finish = blocked_in_session }

  unfoldable pub setup_tcp_server_communication :
      Setup → List (Option (List (Recv (Student N)))) → Trace R
  setup_tcp_server_communication u cs =
      if not u.socket_ok
      then record { events = []; finish = exited 1 }
      else if not u.bind_ok
      then record { events = []; finish = returned }
      else if not u.listen_ok
      then record { events = []; finish = returned }
      else serve_all cs
