-- ===== src/PeerToPeer/Tests.antt =====
-- The theorems at concrete inputs.
use innopolis_networks_s.Base.{
  ◌⊎◌, false, ℕ, suc, ◌≡◌, refl, Bool, true, none, some, List, [], ◌∷◌, pos, if◌then◌else◌, map,
  length, arith,
}
use innopolis_networks_s.Memory.{Memory, write, done, crash}
use innopolis_networks_s.Memory.Ends.{Ends}
use innopolis_networks_s.Text.{Text}
use innopolis_networks_s.Socket.{got, closed, failed}
use innopolis_networks_s.LinkedList.{Node, LinkedList}
use innopolis_networks_s.LinkedList.Layout.{node, Cell, IsList}
use innopolis_networks_s.Peers.{NetworkNode, signal, file_list, known_nodes}
use innopolis_networks_s.Peers.Sync.{all_work, delivered, addresses}
use innopolis_networks_s.Transfer.{saved}
use innopolis_networks_s.FileList
use innopolis_networks_s.PeerToPeer.FileList.{
  aborted, overflowed, sprintf_s_at, form_loop, form_file_str,
}
use innopolis_networks_s.PeerToPeer.FileList.Laws.{visible, unguarded, form_file_str-visible}
use innopolis_networks_s.Networking.{Pton, failure, inaddr_any}
use innopolis_networks_s.Networking.Sockets.{unused, joined_to, named, socket_after, is_joined}
use innopolis_networks_s.PeerToPeer.Networking
use innopolis_networks_s.PeerToPeer.Networking.Laws.{init_tcp_client-init_tcp_server}
use innopolis_networks_s.PeerToPeer.Pool.Laws.{Dropped}
use innopolis_networks_s.Memory.Bump.{bump}
use innopolis_networks_s.PeerToPeer.Syncer.{Answers, send_sync, syncer}
use innopolis_networks_s.PeerToPeer.Syncer.Passes.{syncer_empties}
use innopolis_networks_s.PeerToPeer.Syncer.Laws.{send_sync-Dropped}
use innopolis_networks_s.PeerToPeer.Sync.{sync_handler}
use innopolis_networks_s.PeerToPeer.Sync.Laws.{sync_handler-beyond}
use innopolis_networks_s.PeerToPeer.Transfer.{file_request_handler, download_file}
use innopolis_networks_s.PeerToPeer.Transfer.Laws.{download_file-file_request_handler}
use innopolis_networks_s.PeerToPeer.Samples.{swap, intel, same, me, read_digit}

abbrev file : List ℕ
file = 7 ∷ 8 ∷ 9 ∷ []

download_file-file_request_handler_example :
    download_file intel true true
      (got (file_request_handler intel (some file) 0).wordcount)
      true
      (map got (file_request_handler intel (some file) 0).words)
      1
    ≡ saved file
download_file-file_request_handler_example =
    download_file-file_request_handler intel file 0 1 (omega arith) (omega arith)

abbrev at_port : ℕ → NetworkNode
at_port n = record { name = b'p' ∷ []; ipaddr = b'1' ∷ []; port = n; stale = 0 }

abbrev only : Cell NetworkNode
only = record { addr = 1; val = at_port 2000 }

abbrev single : Memory (Node NetworkNode)
single = record {
  cell = write (λ a. none) 1 (some (node (at_port 2000) 0 0));
  calls = 1;
  limit = 2;
}

abbrev one : LinkedList
one = record { head = 1; tail = 1; size = 1 }

one-IsList : IsList single one (only ∷ [])
unfolding write
one-IsList = record {
  head = refl;
  tail = refl;
  size = refl;
  fits = omega arith;
  chain = (ground arith, refl, refl, tt);
  bounded = λ a h. ground arith;
}

abbrev address : NetworkNode → Text
address n = n.ipaddr

abbrev works : List Bool
works = true ∷ true ∷ true ∷ true ∷ true ∷ []

sync_handler-beyond_example : sync_handler intel address me works one single ≡ (
    if all_work (suc (suc (suc (length (only ∷ []))))) works
    then crash
    else done
        (delivered
          (signal
            ∷ file_list me
            ∷ known_nodes (intel.htonl (length (only ∷ [])))
            ∷ addresses address (only ∷ []))
          works)
        single)
sync_handler-beyond_example =
    sync_handler-beyond address single one intel me only [] works one-IsList (omega arith)
      (omega arith)

abbrev names : List Text
names = (b'.' ∷ []) ∷ (b'a' ∷ b'b' ∷ b'c' ∷ []) ∷ (b'd' ∷ b'e' ∷ b'f' ∷ []) ∷ []

form_file_str-visible_example :
    form_file_str 8 (some names) [] ≡ unguarded (FileList.form_file_str 8 (some (visible names)) [])
form_file_str-visible_example =
    form_file_str-visible 8 names [] (omega arith) (omega arith, (omega arith, tt))

-- Each name fits the buffer, and both together do not.
past_the_end : form_file_str 8 (some names) [] ≡ overflowed
unfolding form_file_str form_loop sprintf_s_at
past_the_end = refl

-- A name that does not fit the whole buffer ends the process.
stopped : form_file_str 4 (some ((b'a' ∷ b'b' ∷ b'c' ∷ []) ∷ [])) [] ≡ aborted
unfolding form_file_str form_loop sprintf_s_at
stopped = refl

abbrev silent : Answers
silent = record { send_ok = true; signal = got 0; data_of = failed; count = closed; peers = [] }

send_sync-Dropped_example : Ends (Dropped (same (at_port 2000)) single one (only ∷ [])) (
    send_sync intel read_digit [] 0 same (bump (Node NetworkNode)) silent (at_port 2000) one single)
send_sync-Dropped_example =
    send_sync-Dropped intel read_digit [] 0 same (bump (Node NetworkNode)) silent (at_port 2000)
      single one (only ∷ []) one-IsList refl

abbrev address_of_peer : Pton
address_of_peer = record { result = pos 1; addr = 16777343 }

init_tcp_client-init_tcp_server_example :
    let r = Networking.init_tcp_client swap 5002 (pos 4) address_of_peer true in
    let t = Networking.init_tcp_server swap 5002 (pos 3) true in
    ((r.result ≡ failure) × (is_joined (socket_after (pos 4) unused r.calls) ≡ false))
    ⊎ ((r.result ≡ pos 4)
        × (socket_after (pos 4) unused r.calls ≡ joined_to 16777343 (swap 5002))
        × (socket_after t.result unused t.calls ≡ named inaddr_any (swap 5002)))
init_tcp_client-init_tcp_server_example =
    init_tcp_client-init_tcp_server swap 5002 (pos 4) address_of_peer true (pos 3)

abbrev left : Cell NetworkNode
left = record { addr = 1; val = at_port 2000 }

abbrev right : Cell NetworkNode
right = record { addr = 2; val = at_port 2001 }

abbrev pair : Memory (Node NetworkNode)
pair = record {
  cell = write (write (λ a. none) 1 (some (node left.val 2 0))) 2 (some (node right.val 0 1));
  calls = 2;
  limit = 3;
}

abbrev two : LinkedList
two = record { head = 1; tail = 2; size = 2 }

two-IsList : IsList pair two (left ∷ right ∷ [])
unfolding write
two-IsList = record {
  head = refl;
  tail = refl;
  size = refl;
  fits = omega arith;
  chain = (ground arith, refl, refl, (ground arith, refl, refl, tt));
  bounded = λ a h. ground arith;
}

-- a pass over two nodes, the second of which does not come to its turn, and one over that node
abbrev passes : List (List Answers)
passes = (silent ∷ silent ∷ []) ∷ (silent ∷ silent ∷ []) ∷ []

syncer_empties_example :
    Ends
      (λ l' m'. IsList m' l' [])
      (syncer intel read_digit [] 0 same (bump (Node NetworkNode)) passes two pair)
syncer_empties_example =
    syncer_empties intel read_digit [] 0 same (bump (Node NetworkNode)) passes pair two
      (left ∷ right ∷ [])
      (((refl, (refl, tt)), omega arith), (((refl, (refl, tt)), omega arith), tt)) (omega arith)
      two-IsList (refl, ((refl, tt), tt), (refl, tt, tt))
