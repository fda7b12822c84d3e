-- ===== src/Exchange/Nameless.antt =====
-- A sync with a node as Lab 7 starts it, without a name.
use innopolis_networks_s.Base.{
  ℕ, ◌+◌, ◌<◌, ◌≤◌, ◌≡◌, refl, ap, ◌∙◌, Bool, true, some, List, ◌∷◌, length, arith,
}
use innopolis_networks_s.Memory.{Memory, Allocator, done, crash}
use innopolis_networks_s.Text.{Text}
use innopolis_networks_s.Text.Tokens.{IsWord, AllWords}
use innopolis_networks_s.FileList.Written.{listed, listing}
use innopolis_networks_s.LinkedList.{Node, LinkedList}
use innopolis_networks_s.LinkedList.Layout.{Cell, IsList}
use innopolis_networks_s.Messages.{
  inet_addrstrlen, portnum_len, filename_len, node_name, node_data, sync_data,
}
use innopolis_networks_s.Messages.RoundTrip.{listing-colon, sync_data-listing}
use innopolis_networks_s.Messages.Nameless.{node_of-node_name}
use innopolis_networks_s.Peers.{NetworkNode, Message, signal, file_list, known_nodes, sync_handler}
use innopolis_networks_s.Peers.Sync.{addresses, all_work, delivered-all_work, sync_handler_lem}
use innopolis_networks_s.Pools.{Value, NodeFile, Pools, send_sync}
use innopolis_networks_s.Exchange.{heard}
use innopolis_networks_s.Exchange.Synced.{address_of}

module _ (sprintf_d : ℕ → Text) (strtoul : Text → ℕ) (stale name_stale : ℕ)
    (reinterpret : NodeFile → NetworkNode) where
  -- all messages of a sync
  abbrev pub said_unnamed : Text → ℕ → List Text → List (Cell Value) → List Message
  said_unnamed ip port names cs =
      signal
      ∷ file_list (node_data sprintf_d node_name ip port (listing names))
      ∷ known_nodes (length cs)
      ∷ addresses (address_of sprintf_d strtoul stale name_stale reinterpret) cs

  -- A sync of two nodes of Lab 7, whose `node_name` is empty, as nothing ever sets it. If all calls of
  -- `send` in the `sync_handler` of the one work, its address and what `%d` writes of its port are not
  -- empty, have no colon and fit their buffers, and the names of its files are not empty, have no colon
  -- and, with a comma behind each, fit 22 bytes, then the `send_sync` of the other crashes, whatever its
  -- pools are: `parse_node` finds one token too few.
  pub send_sync-node_name :
      (memcmp_eq : Value → Value → Bool) (al : Allocator (Node Value)) (n : Memory (Node Value))
      (l : LinkedList) (cs : List (Cell Value)) (ip : Text) (port : ℕ) (names : List Text)
      (filename : Text) (bs : List Bool) (m : Memory (Node Value)) (p : Pools) (asked : NetworkNode)
      → IsList n l cs
      → IsWord b':' ip
      → length ip < inet_addrstrlen
      → IsWord b':' (sprintf_d port)
      → length (sprintf_d port) < portnum_len
      → AllWords b':' names
      → length (listed names) + 2 ≤ filename_len
      → all_work (length (said_unnamed ip port names cs)) bs ≡ true
      → (text : Text) × (sync_data sprintf_d node_name ip port (some names) filename ≡ some text)
        × (out : List Message) × (sync_handler
              (address_of sprintf_d strtoul stale name_stale reinterpret)
              text
              bs
              l
              n
            ≡ done out n)
        × (send_sync memcmp_eq al (heard strtoul stale name_stale out) asked p m ≡ crash)
  unfolding heard send_sync
  send_sync-node_name memcmp_eq al n l cs ip port names filename bs m p asked list a short b short'
        colons room works =
      let text = node_data sprintf_d node_name ip port (listing names) in
      let out = said_unnamed ip port names cs in
      let lost =
        node_of-node_name sprintf_d strtoul stale 0 ip port (listing names) a short b short'
          (listing-colon sprintf_d strtoul names colons) in
      (
        text,
        sync_data-listing sprintf_d strtoul node_name ip port names filename (omega arith) short
            short' room,
        out,
        sync_handler_lem (address_of sprintf_d strtoul stale name_stale reinterpret) n l text cs bs
              list
            ∙ ap (λ out. done out n) (delivered-all_work out bs works),
        rw lost refl,
      )
