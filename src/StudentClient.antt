-- ===== src/StudentClient.antt =====
-- The client of Lab 4 (Lab 4/client.c lines 13 to 98), over the students of StudentServer.antt: `N` is
-- the type of the names and `R` that of the replies. No result of a call is tested there.
pub mod Session
mod Tests
use innopolis_networks_s.Networking.{made, connected, Run}
use innopolis_networks_s.Base.{ℕ, Bool, Option, none, some, ℤ, List, [], ◌∷◌, if◌then◌else◌}
use innopolis_networks_s.Socket.{Recv, closed, received}
use innopolis_networks_s.StudentServer.{Student}

-- DEST_PORT
abbrev pub dest_port : ℕ
dest_port = 2000

-- The address is what `gethostbyname` finds, or `none` for its NULL, through which the client reads. The
-- result of `connect` is not tested, and the port is not turned into network order.
unfoldable pub setup : ℤ → Option ℕ → Bool → Option (Run ℤ)
setup sockfd none connect_ok = none
setup sockfd (some addr) connect_ok = some (record {
  calls = made sockfd ∷ connected sockfd addr dest_port connect_ok ∷ [];
  result = sockfd;
})

-- One round of `while (1)`: what `student_to_send` holds after the three calls of `scanf`, whether the
-- process is alive after `sendto`, which raises SIGPIPE on a stream that the server has closed and reset,
-- and what `response` holds before `recvfrom`.
pub record Entry (N R : Type 0) : Type 0 where
  pub student : Student N
  pub alive : Bool
  pub stale : R

-- What the client sends in a round, and what it prints then.
pub record Shown (N R : Type 0) : Type 0 where
  pub sent : Student N
  pub printed : R

-- `recvfrom` gives what is in the list, and then finds the connection closed.
abbrev pub next : {R : Type 0} → List (Recv R) → Recv R
next [] = closed
next (r ∷ rs) = r

abbrev pub later : {R : Type 0} → List (Recv R) → List (Recv R)
later [] = []
later (r ∷ rs) = rs

-- The loop, for as long as the user types and no signal ends the process.
unfoldable pub setup_tcp_communication :
    {N R : Type 0} → List (Entry N R) → List (Recv R) → List (Shown N R)
setup_tcp_communication [] rs = []
setup_tcp_communication (e ∷ es) rs =
    let rest = setup_tcp_communication es (later rs) in
    if e.alive then record { sent = e.student; printed = received (next rs) e.stale } ∷ rest else []
