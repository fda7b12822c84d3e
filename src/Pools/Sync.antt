-- ===== src/Pools/Sync.antt =====
-- What a sync with a peer that answers leaves in the two pools.
use innopolis_networks_s.Base.{
  ltb, ℕ, suc, ◌+◌, ◌<◌, ◌≤◌, ◌≡◌, refl, ap, ◌⊎◌, Bool, true, false, List, [], ◌∷◌, ◌++◌, map,
  length, size_max, pos, arith, length-append,
}
use innopolis_networks_s.Memory.{Memory, Allocator, pure, ◌>>=◌}
use innopolis_networks_s.Memory.Alloc.{Refuses}
use innopolis_networks_s.Memory.Ends
use innopolis_networks_s.Memory.Ends.{Ends, ends}
use innopolis_networks_s.Socket.{got}
use innopolis_networks_s.LinkedList.{Node, LinkedList}
use innopolis_networks_s.LinkedList.Layout.{Cell}
use innopolis_networks_s.LinkedList.Frame.{Spared-insert, Spared-refl}
use innopolis_networks_s.LinkedList.Insert.{Inserted, inserted, refused, insert_val_lem}
use innopolis_networks_s.Peers.{NetworkNode, parse_peer, parse_peers}
use innopolis_networks_s.Peers.Pool.{AllNew, AllKnown, grow_lem}
use innopolis_networks_s.Pools.{
  Value, peer, shared, NodeFile, Pools, Answers, parse_node, peers_loop, send_sync,
}
use innopolis_networks_s.Pools.Invariant.{Holds, step_nodes, step_files}

pub length-map : {A B : Type 0} (f : A → B) (xs : List A) → length (map f xs) ≡ length xs
length-map f [] = refl
length-map f (x ∷ xs) = ap suc (length-map f xs)

-- The node that answered is the new first element, unless the allocator has refused.
pub data Arrived (al : Allocator (Node Value)) (node : NetworkNode)
    : List (Cell Value) → Type 0 where
  arrived : (c : Cell Value) → c.val ≡ peer node → Arrived al node (c ∷ [])
  not_arrived : Refuses al → Arrived al node []

-- A peer that answers the whole of a sync: its signal, itself with its files, and the nodes it knows.
abbrev pub answering : ℕ → NetworkNode → List NodeFile → List NetworkNode → Answers
answering v node files vs = record {
  send_ok = true;
  signal = got (pos v);
  data_of = got (node, files);
  count = got (pos (length vs));
  peers = map got vs;
}

module _ (memcmp_eq : Value → Value → Bool) (al : Allocator (Node Value)) where
  -- The pools after `parse_node`: the node before the others, and the files that were not there before
  -- the other files.
  pub record Parsed (ns fs : List (Cell Value)) (node : NetworkNode) (files : List NodeFile)
      (p' : Pools) (m' : Memory (Node Value)) : Type 0 where
    pub first : List (Cell Value)
    pub fresh_files : List (Cell Value)
    pub holds : Holds m' p' (first ++ ns) (fresh_files ++ fs)
    pub node_arrived : Arrived al node first
    pub few_files : length fresh_files ≤ length files
    pub new_files : AllNew memcmp_eq fresh_files fs
    pub files_known : AllKnown memcmp_eq (map shared files) (fresh_files ++ fs) ⊎ Refuses al

  -- The pools after a sync: `Parsed`, and the peers that were not there before all others.
  pub record Synced (ns fs : List (Cell Value)) (node : NetworkNode) (files : List NodeFile)
      (vs : List NetworkNode) (p' : Pools) (m' : Memory (Node Value)) : Type 0 where
    pub fresh : List (Cell Value)
    pub first : List (Cell Value)
    pub fresh_files : List (Cell Value)
    pub holds : Holds m' p' (fresh ++ (first ++ ns)) (fresh_files ++ fs)
    pub node_arrived : Arrived al node first
    pub few_nodes : length fresh ≤ length vs
    pub few_files : length fresh_files ≤ length files
    pub new_nodes : AllNew memcmp_eq fresh (first ++ ns)
    pub new_files : AllNew memcmp_eq fresh_files fs
    pub nodes_known : AllKnown memcmp_eq (map peer vs) (fresh ++ (first ++ ns)) ⊎ Refuses al
    pub files_known : AllKnown memcmp_eq (map shared files) (fresh_files ++ fs) ⊎ Refuses al

  module _ (memcmp_refl : (v : Value) → memcmp_eq v v ≡ true) where
    add_files :
        (m : Memory (Node Value)) (p : Pools) (l : LinkedList) (ns fs first : List (Cell Value))
        (node : NetworkNode) (files : List NodeFile)
        → Holds m (record p { nodepool = l }) (first ++ ns) fs
        → Arrived al node first
        → length fs + length files < size_max
        → Ends (Parsed ns fs node files) (
            (do
              filepool ← parse_peers memcmp_eq al p.filepool (map shared files)
              pure (record { nodepool = l; filepool = filepool }))
              m)
    add_files m p l ns fs first node files h came room =
        Ends.seq
          (grow_lem memcmp_eq al memcmp_refl (map shared files) m p.filepool fs h.files
            (omega (arith, length-map shared files)))
          λ fp m' g. ends (record {
            first = first;
            fresh_files = g.fresh;
            holds =
                step_files m m' (record p { nodepool = l }) fp (first ++ ns) fs (g.fresh ++ fs) h
                  g.list g.spared;
            node_arrived = came;
            few_files = omega (arith, g.few, length-map shared files);
            new_files = g.new;
            files_known = g.all_known;
          })

    -- `parse_node` on the two pools, both with room below the greatest size: the node becomes the first
    -- of the pool of nodes, whether that has it or not, unless the allocator refuses; of its files those
    -- are added that the pool of files does not have, and in the end it has them all unless the allocator
    -- can refuse; and the pools stay two lists with no node in common (`Parsed`).
    pub parse_node_lem :
        (m : Memory (Node Value)) (p : Pools) (ns fs : List (Cell Value)) (node : NetworkNode)
        (files : List NodeFile)
        → Holds m p ns fs
        → length ns + 1 < size_max
        → length fs + length files < size_max
        → Ends (Parsed ns fs node files) (parse_node memcmp_eq al p node files m)
    unfolding parse_node
    parse_node_lem m p ns fs node files h room room' =
        Ends.seq (insert_val_lem al m p.nodepool (peer node) [] ns h.nodes room)
          λ (l', r) m1 q. after q
      where
        after :
            {l' : LinkedList} {r : ℕ} {m1 : Memory (Node Value)}
            → Inserted al m p.nodepool (peer node) [] ns (l', r) m1
            → Ends (Parsed ns fs node files) (
                (do
                  filepool ← parse_peers memcmp_eq al p.filepool (map shared files)
                  pure (record { nodepool = l'; filepool = filepool }))
                  m1)
        after (inserted {l'} {m'} c e free list same) =
            add_files m' p l' ns fs (c ∷ []) node files
              (step_nodes m m' p l' ns (c ∷ ns) fs h list (Spared-insert m m' [] ns c free same))
              (arrived c e) room'
        after (refused {m'} may list same) =
            add_files m' p p.nodepool ns fs [] node files
              (step_nodes m m' p p.nodepool ns ns fs h list (Spared-refl m m' ns same))
              (not_arrived may) room'

    peers_loop-parse_peers :
        (vs : List NetworkNode) (l : LinkedList) (m : Memory (Node Value))
        → peers_loop memcmp_eq al (length vs) (map got vs) l m
          ≡ parse_peers memcmp_eq al l (map peer vs) m
    unfolding peers_loop parse_peers
    peers_loop-parse_peers [] l m = refl
    peers_loop-parse_peers (v ∷ vs) l m =
        λ i. (parse_peer memcmp_eq al l (peer v) >>= (λ l' m'. peers_loop-parse_peers vs l' m' i)) m

    length-Arrived :
        (node : NetworkNode) (first : List (Cell Value)) → Arrived al node first → length first ≤ 1
    length-Arrived node first (arrived c e) = omega arith
    length-Arrived node first (not_arrived may) = omega arith

    pub send_sync-answering :
        (m : Memory (Node Value)) (p : Pools) (ns fs : List (Cell Value)) (asked node : NetworkNode)
        (v : ℕ) (files : List NodeFile) (vs : List NetworkNode)
        → Holds m p ns fs
        → length ns + 1 + length vs < size_max
        → length fs + length files < size_max
        → Ends
            (Synced ns fs node files vs)
            (send_sync memcmp_eq al (answering v node files vs) asked p m)
    unfolding send_sync
    send_sync-answering m p ns fs asked node v files vs h room room' =
        let signalled : ltb v 0 ≡ false = ground arith in
        rw signalled (
          Ends.seq (parse_node_lem m p ns fs node files h (omega arith) room') λ p1 m1 g.
            rw (peers_loop-parse_peers vs p1.nodepool m1) (
              Ends.seq
                (grow_lem memcmp_eq al memcmp_refl (map peer vs) m1 p1.nodepool (g.first ++ ns)
                  g.holds.nodes
                  (omega (
                    arith,
                    length-map peer vs,
                    length-append g.first ns,
                    length-Arrived node g.first g.node_arrived,
                  )))
                λ l m2 k. ends (record {
                  fresh = k.fresh;
                  first = g.first;
                  fresh_files = g.fresh_files;
                  holds =
                      step_nodes m1 m2 p1 l (g.first ++ ns) (k.fresh ++ (g.first ++ ns))
                        (g.fresh_files ++ fs) g.holds k.list k.spared;
                  node_arrived = g.node_arrived;
                  few_nodes = omega (arith, k.few, length-map peer vs);
                  few_files = g.few_files;
                  new_nodes = k.new;
                  new_files = g.new_files;
                  nodes_known = k.all_known;
                  files_known = g.files_known;
                })))
