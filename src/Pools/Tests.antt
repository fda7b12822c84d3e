-- ===== src/Pools/Tests.antt =====
-- A pool of two nodes and a pool of one file.
use innopolis_networks_s.Base.{
  ◌≤◌, pos, ℕ, ◌+◌, ◌<◌, ◌≡◌, refl, ◌==◌, Bool, true, false, none, some, List, [], ◌∷◌, map, length,
  arith, ==_of_eq,
}
use innopolis_networks_s.Memory.{Memory, write, crash}
use innopolis_networks_s.Memory.Bump.{bump, bump_reliable}
use innopolis_networks_s.Memory.Ends.{Ends}
use innopolis_networks_s.Socket.{failed, closed, got}
use innopolis_networks_s.LinkedList.{Node}
use innopolis_networks_s.LinkedList.Layout.{node, Cell}
use innopolis_networks_s.Peers.{NetworkNode}
use innopolis_networks_s.Pools.{Value, peer, shared, NodeFile, Pools, Answers, syncer_for, syncer}
use innopolis_networks_s.Pools.Invariant.{Holds}
use innopolis_networks_s.Networking.{Pton, init_tcp_client}
use innopolis_networks_s.Networking.Sockets.{is_joined}
use innopolis_networks_s.Peers.Distinct.{AllDistinct}
use innopolis_networks_s.Pools.Skips.{AllPeers, syncer_for-skipped}
use innopolis_networks_s.Pools.Passes.{syncer_lem}
use innopolis_networks_s.Pools.Unjoined.{Attempt, syncer-init_tcp_client}
use innopolis_networks_s.Pools.Syncer.{Reply, answer, syncer_for-endless}

abbrev at_port : ℕ → NetworkNode
at_port n = record { name = b'p' ∷ []; ipaddr = b'1' ∷ []; port = n; stale = 0 }

abbrev file_of : ℕ → NodeFile
file_of n = record { name = b'f' ∷ []; node = at_port n; stale = 0 }

-- compares ports alone
abbrev same : Value → Value → Bool
same (peer a) (peer b) = a.port == b.port
same (shared a) (shared b) = a.node.port == b.node.port
same _ _ = false

same_refl : (v : Value) → same v v ≡ true
same_refl (peer a) = ==_of_eq a.port a.port refl
same_refl (shared a) = ==_of_eq a.node.port a.node.port refl

abbrev first : Cell Value
first = record { addr = 1; val = peer (at_port 1) }

abbrev second : Cell Value
second = record { addr = 2; val = peer (at_port 2) }

abbrev only : Cell Value
only = record { addr = 3; val = shared (file_of 1) }

abbrev memory : Memory (Node Value)
memory = record {
  cell =
      write (write (write (λ a. none) 1 (some (node first.val 2 0))) 2 (some (node second.val 0 1)))
        3 (some (node only.val 0 0));
  calls = 3;
  limit = 4;
}

abbrev pools : Pools
pools = record {
  nodepool = record { head = 1; tail = 2; size = 2 };
  filepool = record { head = 3; tail = 3; size = 1 };
}

pools-Holds : Holds memory pools (first ∷ second ∷ []) (only ∷ [])
unfolding write
pools-Holds = record {
  nodes = record {
    head = refl;
    tail = refl;
    size = refl;
    fits = omega arith;
    chain = (ground arith, refl, refl, (ground arith, refl, refl, tt));
    bounded = λ a h. ground arith;
  };
  files = record {
    head = refl;
    tail = refl;
    size = refl;
    fits = omega arith;
    chain = (ground arith, refl, refl, tt);
    bounded = λ a h. ground arith;
  };
  apart = (refl, (refl, tt));
}

abbrev address : Pton
address = record { result = pos 1; addr = 16777343 }

-- what a peer would answer, were it reached
abbrev unreached : Answers
unreached = record {
  send_ok = false;
  signal = got (pos 1);
  data_of = failed;
  count = failed;
  peers = [];
}

abbrev no_answer : Answers
no_answer = record { send_ok = true; signal = closed; data_of = failed; count = failed; peers = [] }

abbrev replies : List Reply
replies =
    record { node = at_port 1; signal = 1; files = []; peers = at_port 2 ∷ [] }
    ∷ record { node = at_port 1; signal = 1; files = file_of 2 ∷ []; peers = [] }
    ∷ []

syncer_for-endless_example :
    Ends
      (λ (p', j) m'. (j ≡ 0 + length replies) × (j < p'.nodepool.size))
      (syncer_for same (bump (Node Value)) (λ f. f.node) (map answer replies) 0 pools memory)
syncer_for-endless_example =
    syncer_for-endless same (bump (Node Value)) (λ f. f.node) same_refl
      (λ (m, b, e). bump_reliable m b e) replies 0 memory pools (first ∷ second ∷ []) (only ∷ [])
      pools-Holds (omega arith) (omega arith) (omega arith)

pools-AllDistinct : AllDistinct same (first ∷ second ∷ [])
pools-AllDistinct = (refl, ((refl, tt), tt), (refl, tt, tt))

pools-AllPeers : AllPeers same (first ∷ second ∷ [])
pools-AllPeers = ((at_port 1, refl), ((at_port 2, refl), tt))

syncer_for-skipped_example :
    Ends
      (λ (p', j) m'. Holds m' p' (second ∷ []) (only ∷ []) × (p'.nodepool.size ≤ j))
      (syncer_for same
        (bump (Node Value))
        (λ f. f.node)
        (unreached ∷ no_answer ∷ [])
        0
        pools
        memory)
syncer_for-skipped_example =
    syncer_for-skipped same (bump (Node Value)) (λ f. f.node) (only ∷ [])
      (unreached ∷ no_answer ∷ []) memory pools (first ∷ second ∷ []) (refl, (refl, tt))
      (omega arith) pools-Holds (omega arith) pools-AllDistinct pools-AllPeers

abbrev tried : Attempt
tried = record { port = 2; fd = pos 3; pton = address; bind_ok = true }

abbrev passes : List (List Answers)
passes = (unreached ∷ unreached ∷ []) ∷ (unreached ∷ unreached ∷ []) ∷ []

syncer_lem_example : syncer same (bump (Node Value)) (λ f. f.node) passes pools memory ≡ crash
syncer_lem_example =
    syncer_lem same (bump (Node Value)) (λ f. f.node) (only ∷ []) passes memory pools
      (first ∷ second ∷ [])
      (((refl, (refl, tt)), omega arith), (((refl, (refl, tt)), omega arith), tt)) (omega arith)
      pools-Holds (omega arith) pools-AllDistinct pools-AllPeers

syncer-init_tcp_client_example :
    syncer same (bump (Node Value)) (λ f. f.node) passes pools memory ≡ crash
unfolding init_tcp_client
syncer-init_tcp_client_example =
    syncer-init_tcp_client is_joined (λ n. n) (λ s e. e) same (bump (Node Value)) (λ f. f.node)
      passes memory pools (first ∷ second ∷ []) (only ∷ [])
      (
        (((tried, refl), ((tried, refl), tt)), omega arith),
        ((((tried, refl), ((tried, refl), tt)), omega arith), tt),
      )
      (omega arith) pools-Holds (omega arith) pools-AllDistinct pools-AllPeers
