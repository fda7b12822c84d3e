-- ===== src/Exchange/Tests.antt =====
-- A node that knows one other node and has one file answers a node that knows two nodes and a file.
use innopolis_networks_s.Base.{
  ℕ, ◌+◌, ◌-◌, ◌<◌, ◌≡◌, ◌≢◌, refl, ◌==◌, Bool, true, false, none, some, List, [], ◌∷◌, map, arith,
  ==_of_eq,
}
use innopolis_networks_s.Memory.{Memory, done, crash, write}
use innopolis_networks_s.Memory.Bump.{bump}
use innopolis_networks_s.Memory.Ends.{Ends}
use innopolis_networks_s.Text.{Text}
use innopolis_networks_s.Messages.{node_name, sync_data}
use innopolis_networks_s.Exchange.Nameless.{send_sync-node_name}
use innopolis_networks_s.Messages.RoundTrip.{IsSendable}
use innopolis_networks_s.LinkedList.{Node, LinkedList}
use innopolis_networks_s.LinkedList.Layout.{node, Cell, IsList}
use innopolis_networks_s.Peers.{NetworkNode, Message, sync_handler}
use innopolis_networks_s.Peers.Sync.{all_work}
use innopolis_networks_s.Pools.{Value, peer, shared, NodeFile, Pools, send_sync}
use innopolis_networks_s.Pools.Invariant.{Holds}
use innopolis_networks_s.Pools.Sync.{Synced}
use innopolis_networks_s.Exchange.{file_at, heard}
use innopolis_networks_s.Exchange.Synced.{restale, nodes_in, address_of, sync_handler-send_sync}

abbrev digit : ℕ → Text
digit n = (n + b'0') ∷ []

abbrev read_digit : Text → ℕ
read_digit [] = 0
read_digit (c ∷ cs) = c - b'0'

abbrev at_port : ℕ → NetworkNode
at_port n = record { name = b'p' ∷ []; ipaddr = b'1' ∷ []; port = n; stale = 0 }

at_port-IsSendable : (n : ℕ) → n < 10 → n + b'0' ≢ b':' → IsSendable digit read_digit (at_port n)
at_port-IsSendable n h ne = record {
  name = (omega arith, tt);
  name_fits = omega arith;
  ipaddr = (omega arith, tt);
  ipaddr_fits = omega arith;
  port = (ne, tt);
  port_fits = omega arith;
  port_read = omega arith;
  in_port = omega arith;
}

-- compares ports alone
abbrev same : Value → Value → Bool
same (peer a) (peer b) = a.port == b.port
same (shared a) (shared b) = a.node.port == b.node.port
same _ _ = false

same_refl : (v : Value) → same v v ≡ true
same_refl (peer a) = ==_of_eq a.port a.port refl
same_refl (shared a) = ==_of_eq a.node.port a.node.port refl

abbrev reinterpret : NodeFile → NetworkNode
reinterpret f = f.node

abbrev known : Cell Value
known = record { addr = 5; val = peer (at_port 3) }

abbrev others_memory : Memory (Node Value)
others_memory = record {
  cell = write (λ a. none) 5 (some (node known.val 0 0));
  calls = 1;
  limit = 6;
}

abbrev others_pool : LinkedList
others_pool = record { head = 5; tail = 5; size = 1 }

others-IsList : IsList others_memory others_pool (known ∷ [])
unfolding write
others-IsList = record {
  head = refl;
  tail = refl;
  size = refl;
  fits = omega arith;
  chain = (ground arith, refl, refl, tt);
  bounded = λ a h. ground arith;
}

abbrev first : Cell Value
first = record { addr = 1; val = peer (at_port 1) }

abbrev only : Cell Value
only = record { addr = 3; val = shared (file_at 0 (at_port 1) (b'f' ∷ [])) }

abbrev memory : Memory (Node Value)
memory = record {
  cell = write (write (λ a. none) 1 (some (node first.val 0 0))) 3 (some (node only.val 0 0));
  calls = 2;
  limit = 4;
}

abbrev pools : Pools
pools = record {
  nodepool = record { head = 1; tail = 1; size = 1 };
  filepool = record { head = 3; tail = 3; size = 1 };
}

pools-Holds : Holds memory pools (first ∷ []) (only ∷ [])
unfolding write
pools-Holds = record {
  nodes = record {
    head = refl;
    tail = refl;
    size = refl;
    fits = omega arith;
    chain = (ground arith, refl, refl, tt);
    bounded = λ a h. ground arith;
  };
  files = record {
    head = refl;
    tail = refl;
    size = refl;
    fits = omega arith;
    chain = (ground arith, refl, refl, tt);
    bounded = λ a h. ground arith;
  };
  apart = (refl, tt);
}

abbrev names : List Text
names = (b'g' ∷ []) ∷ []

abbrev works : List Bool
works = true ∷ true ∷ true ∷ true ∷ []

all_sent : all_work 4 works ≡ true
unfolding all_work
all_sent = refl

sync_handler-send_sync_example :
    (text : Text) × (sync_data digit
        (at_port 2).name
        (at_port 2).ipaddr
        (at_port 2).port
        (some names)
        []
      ≡ some text)
    × (out : List Message) × (sync_handler
          (address_of digit read_digit 0 0 reinterpret)
          text
          works
          others_pool
          others_memory
        ≡ done out others_memory)
    × Ends
        (Synced same
          (bump (Node Value))
          (first ∷ [])
          (only ∷ [])
          (restale 0 (at_port 2))
          (map (file_at 0 (restale 0 (at_port 2))) names)
          (map (restale 0) (nodes_in reinterpret (known ∷ []))))
        (send_sync same (bump (Node Value)) (heard read_digit 0 0 out) (at_port 1) pools memory)
sync_handler-send_sync_example =
    sync_handler-send_sync digit read_digit 0 0 reinterpret same (bump (Node Value)) same_refl
      others_memory others_pool (known ∷ []) (at_port 2) names [] works memory pools (first ∷ [])
      (only ∷ []) (at_port 1) others-IsList (at_port-IsSendable 2 (omega arith) (omega arith))
      ((omega arith, tt), tt) ((omega arith, tt), tt) ((omega arith, tt), tt) (omega arith)
      (at_port-IsSendable 3 (omega arith) (omega arith), tt) all_sent pools-Holds (omega arith)
      (omega arith)

send_sync-node_name_example :
    (text : Text) × (sync_data digit node_name (b'1' ∷ []) 2 (some names) [] ≡ some text)
    × (out : List Message) × (sync_handler
          (address_of digit read_digit 0 0 reinterpret)
          text
          works
          others_pool
          others_memory
        ≡ done out others_memory)
    × (send_sync same (bump (Node Value)) (heard read_digit 0 0 out) (at_port 1) pools memory
        ≡ crash)
send_sync-node_name_example =
    send_sync-node_name digit read_digit 0 0 reinterpret same (bump (Node Value)) others_memory
      others_pool (known ∷ []) (b'1' ∷ []) 2 names [] works memory pools (at_port 1) others-IsList
      (omega arith, tt) (omega arith) (omega arith, tt) (omega arith) ((omega arith, tt), tt)
      (omega arith) all_sent
