-- ===== src/PeerToPeer/Startup.antt =====
-- `main` of Lab 7 Windows/PeerToPeer/PeerToPeer.c (lines 473 to 559) up to the start of `UserRepl`: what
-- the user types, the pools and the port with which the threads start. The directory to share is left
-- out. An `int` is the number of its 32 bits.
pub mod Laws
pub mod Contact
mod Tests
use innopolis_networks_s.Base.{
  ℕ, ◌+◌, ◌%◌, ◌^◌, ◌==◌, Bool, true, false, not, ◌||◌, List, [], ◌∷◌, if◌then◌else◌,
}
use innopolis_networks_s.Text.{Text}
use innopolis_networks_s.Memory.{Cmd, Allocator, pure, ◌>>=◌}
use innopolis_networks_s.LinkedList.{LinkedList, insert_val, new_linked_list}
use innopolis_networks_s.LinkedList
use innopolis_networks_s.Peers.{NetworkNode}
use innopolis_networks_s.Startup.{Answer, waiting, alone, contact, ask}

-- What the calls of the system give: `HeapAlloc` for the first contact, `WSAStartup`, and the thread that
-- listens.
pub record Calls : Type 0 where
  pub heap_ok : Bool
  pub wsa_ok : Bool
  pub listener_ok : Bool

pub record Node : Type 0 where
  pub nodepool : LinkedList
  pub filepool : LinkedList
  pub main_port : ℕ

-- `main` asks on, has returned -1, or goes on to `UserRepl`.
pub data Started : Type 0 where
  asking : Started
  gave_up : Started
  running : Node → Started

-- `(int) strtoul(portBuf, NULL, 0)`
abbrev pub port_of : (Text → ℕ) → Text → ℕ
port_of strtoul portbuf = strtoul portbuf % 2 ^ 32

abbrev pub first_port : ℕ
first_port = 5002

-- `if (port == mainPort) mainPort++`
abbrev pub own_port : ℕ → ℕ
own_port port = if port == first_port then first_port + 1 else first_port

abbrev pub start_threads : Calls → Node → Started
start_threads calls node =
    if not calls.wsa_ok then gave_up else if not calls.listener_ok then gave_up else running node

-- `stale` are the bytes of the new block that no `strcpy_s` writes; `insertVal` may find no memory.
module _ (al : Allocator (LinkedList.Node NetworkNode)) (stale : ℕ) (calls : Calls) where
  abbrev pub first_node : Text → ℕ → NetworkNode
  first_node addr port = record { name = addr; ipaddr = addr; port = port; stale = stale }

  abbrev pub connect : Text → ℕ → Cmd (LinkedList.Node NetworkNode) Started
  connect addr port = if not calls.heap_ok then pure gave_up else do
    (nodepool, _) ← insert_val al new_linked_list 0 (first_node addr port)
    pure (
        start_threads calls
          (record { nodepool = nodepool; filepool = new_linked_list; main_port = own_port port }))

  abbrev pub go_on : Answer → Cmd (LinkedList.Node NetworkNode) Started
  go_on waiting = pure asking
  go_on alone = pure (
      start_threads calls
        (record { nodepool = new_linked_list; filepool = new_linked_list; main_port = first_port }))
  go_on (contact addr port) = connect addr port

  unfoldable pub main : (strtoul : Text → ℕ) → List Text → Cmd (LinkedList.Node NetworkNode) Started
  main strtoul typed = go_on (ask (port_of strtoul) typed)
