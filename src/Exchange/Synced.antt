-- ===== src/Exchange/Synced.antt =====
-- What a sync leaves in the pools of the node that asked.
use innopolis_networks_s.Base.{
  ℕ, suc, ◌+◌, ◌<◌, ◌≤◌, some, ◌≡◌, refl, ap, ◌∙◌, Bool, true, List, [], ◌∷◌, map, length, size_max,
  arith,
}
use innopolis_networks_s.Memory.{Memory, Allocator, done}
use innopolis_networks_s.Memory.Ends.{Ends}
use innopolis_networks_s.Text.{Text}
use innopolis_networks_s.Text.Tokens.{AllWords}
use innopolis_networks_s.Socket.{got}
use innopolis_networks_s.FileList.Written.{listed, listing}
use innopolis_networks_s.FileList.RoundTrip.{AllStrings}
use innopolis_networks_s.Messages.{filename_len, form_node_msg, node_data, sync_data}
use innopolis_networks_s.Messages.RoundTrip.{
  IsSendable, peer_of-form_node_msg, node_of-node_data, sync_data-listing,
}
use innopolis_networks_s.LinkedList.{Node, LinkedList}
use innopolis_networks_s.LinkedList.Layout.{Cell, IsList}
use innopolis_networks_s.Peers.{NetworkNode, Message, signal, file_list, known_nodes, sync_handler}
use innopolis_networks_s.Peers.Sync.{addresses, all_work, delivered-all_work, sync_handler_lem}
use innopolis_networks_s.Pools.{Value, peer, shared, NodeFile, Pools, send_sync}
use innopolis_networks_s.Pools.Invariant.{Holds}
use innopolis_networks_s.Pools.Sync.{Synced, answering, length-map, send_sync-answering}
use innopolis_networks_s.Exchange.{file_at, peer_from, heard}

-- The node as it comes out of a fresh block.
abbrev pub restale : ℕ → NetworkNode → NetworkNode
restale stale node = record node { stale = stale }

-- A value of a pool read as a node; `reinterpret` reads a block with a file as one.
abbrev pub node_behind : (NodeFile → NetworkNode) → Value → NetworkNode
node_behind reinterpret (peer node) = node
node_behind reinterpret (shared file) = reinterpret file

abbrev pub nodes_in : (NodeFile → NetworkNode) → List (Cell Value) → List NetworkNode
nodes_in reinterpret [] = []
nodes_in reinterpret (c ∷ cs) = node_behind reinterpret c.val ∷ nodes_in reinterpret cs

length-nodes_in :
    (reinterpret : NodeFile → NetworkNode) (cs : List (Cell Value))
    → length (nodes_in reinterpret cs) ≡ length cs
length-nodes_in reinterpret [] = refl
length-nodes_in reinterpret (c ∷ cs) = ap suc (length-nodes_in reinterpret cs)

length-restale : (stale : ℕ) (ns : List NetworkNode) → length (map (restale stale) ns) ≡ length ns
length-restale stale [] = refl
length-restale stale (n ∷ ns) = ap suc (length-restale stale ns)

module _ (sprintf_d : ℕ → Text) (strtoul : Text → ℕ) (stale name_stale : ℕ)
    (reinterpret : NodeFile → NetworkNode) where
  abbrev pub AllSendable : List NetworkNode → Type 0
  AllSendable [] = Unit
  AllSendable (n ∷ ns) = IsSendable sprintf_d strtoul n × AllSendable ns

  restale-IsSendable :
      (node : NetworkNode)
      → IsSendable sprintf_d strtoul node
      → IsSendable sprintf_d strtoul (restale stale node)
  restale-IsSendable node h = record {
    name = h.name;
    name_fits = h.name_fits;
    ipaddr = h.ipaddr;
    ipaddr_fits = h.ipaddr_fits;
    port = h.port;
    port_fits = h.port_fits;
    port_read = h.port_read;
    in_port = h.in_port;
  }

  -- what `sync_handler` writes of a value of its pool
  abbrev pub address_of : Value → Text
  address_of v = form_node_msg sprintf_d (node_behind reinterpret v)

  peers_heard :
      (cs : List (Cell Value))
      → AllSendable (nodes_in reinterpret cs)
      → map (peer_from strtoul stale name_stale) (addresses address_of cs)
        ≡ map got (map (restale stale) (nodes_in reinterpret cs))
  unfolding form_node_msg
  peers_heard [] h = refl
  peers_heard (c ∷ cs) h =
      let n = node_behind reinterpret c.val in
      let e =
        peer_of-form_node_msg sprintf_d strtoul (restale stale n) (restale-IsSendable n h.0) in
      rw (e, peers_heard cs h.1) refl

  -- all messages of a sync
  abbrev pub said : NetworkNode → List Text → List (Cell Value) → List Message
  said self names cs =
      signal
      ∷ file_list (node_data sprintf_d self.name self.ipaddr self.port (listing names))
      ∷ known_nodes (length cs)
      ∷ addresses address_of cs

  pub heard-said :
      (self : NetworkNode) (names : List Text) (cs : List (Cell Value))
      → IsSendable sprintf_d strtoul self
      → AllWords b',' names
      → AllWords b':' names
      → AllStrings names
      → length (listed names) + 2 ≤ filename_len
      → AllSendable (nodes_in reinterpret cs)
      → heard strtoul stale name_stale (said self names cs)
        ≡ answering 1
            (restale stale self)
            (map (file_at name_stale (restale stale self)) names)
            (map (restale stale) (nodes_in reinterpret cs))
  unfolding heard
  heard-said self names cs h commas colons strings room others =
      let e =
        node_of-node_data sprintf_d strtoul (restale stale self) names (restale-IsSendable self h)
          commas colons strings (omega (arith, room)) in
      let n : length (map (restale stale) (nodes_in reinterpret cs)) ≡ length cs =
        length-restale stale (nodes_in reinterpret cs) ∙ length-nodes_in reinterpret cs in
      rw (e, n, peers_heard cs others) refl

  -- A whole sync of two nodes that have names. A node whose pool is `cs` answers with `sync_handler`, and
  -- all its calls of `send` work. The names, the addresses and what `%d` writes of the ports, of the node
  -- and of those that it knows, are not empty, have no colon and fit their buffers (`IsSendable`); the
  -- names of its files, with a comma behind each, fit 22 bytes, so that `form_file_str` stays in its
  -- buffer of 24, and none of them is empty or has a comma, a colon or a 0 in it. Then the `send_sync` of
  -- the node that asked puts the node first into its pool of nodes, adds the nodes that the other knows
  -- and its files where its pools do not have them, and in the end has all of them, all this unless its
  -- allocator can refuse; it keeps what it had, and its pools stay two lists with no node in common
  -- (`Synced`). Both pools have to stay below the greatest size, `memcmp` finds each value equal to
  -- itself, and the byte of the list of files that `memcpy` does not reach is 0.
  pub sync_handler-send_sync :
      (memcmp_eq : Value → Value → Bool) (al : Allocator (Node Value))
      (memcmp_refl : (v : Value) → memcmp_eq v v ≡ true) (n : Memory (Node Value)) (l : LinkedList)
      (cs : List (Cell Value)) (self : NetworkNode) (names : List Text) (filename : Text)
      (bs : List Bool) (m : Memory (Node Value)) (p : Pools) (ns fs : List (Cell Value))
      (asked : NetworkNode)
      → IsList n l cs
      → IsSendable sprintf_d strtoul self
      → AllWords b',' names
      → AllWords b':' names
      → AllStrings names
      → length (listed names) + 2 ≤ filename_len
      → AllSendable (nodes_in reinterpret cs)
      → all_work (length (said self names cs)) bs ≡ true
      → Holds m p ns fs
      → length ns + 1 + length cs < size_max
      → length fs + length names < size_max
      → (text : Text) × (sync_data sprintf_d self.name self.ipaddr self.port (some names) filename
          ≡ some text)
        × (out : List Message) × (sync_handler address_of text bs l n ≡ done out n)
        × Ends
            (Synced memcmp_eq al ns fs
              (restale stale self)
              (map (file_at name_stale (restale stale self)) names)
              (map (restale stale) (nodes_in reinterpret cs)))
            (send_sync memcmp_eq al (heard strtoul stale name_stale out) asked p m)
  sync_handler-send_sync memcmp_eq al memcmp_refl n l cs self names filename bs m p ns fs asked list
        h commas colons strings room others works holds below below' =
      let text = node_data sprintf_d self.name self.ipaddr self.port (listing names) in
      (
        text,
        sync_data-listing sprintf_d strtoul self.name self.ipaddr self.port names filename
            h.name_fits h.ipaddr_fits h.port_fits room,
        said self names cs,
        sync_handler_lem address_of n l text cs bs list
            ∙ ap (λ out. done out n) (delivered-all_work (said self names cs) bs works),
        rw (heard-said self names cs h commas colons strings room others) (
            send_sync-answering memcmp_eq al memcmp_refl m p ns fs asked (restale stale self) 1
              (map (file_at name_stale (restale stale self)) names)
              (map (restale stale) (nodes_in reinterpret cs)) holds
              (omega (
                arith,
                length-restale stale (nodes_in reinterpret cs),
                length-nodes_in reinterpret cs,
              ))
              (omega (arith, length-map (file_at name_stale (restale stale self)) names))),
      )
