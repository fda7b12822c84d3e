-- ===== src/PeerToPeer/Sync.antt =====
-- `SyncHandler` of Lab 7 Windows/PeerToPeer/PeerToPeer.c (lines 125 to 180). The messages are those of
-- Lab 7's `sync_handler`, with the 32 bits of the number of nodes as they are sent.
pub mod Laws
use innopolis_networks_s.Base.{ℕ, ◌%◌, ◌^◌, Bool, not, List, [], ◌∷◌, if◌then◌else◌}
use innopolis_networks_s.Memory.{Cmd, pure, ◌>>=◌}
use innopolis_networks_s.Text.{Text}
use innopolis_networks_s.LinkedList.{Node, LinkedList}
use innopolis_networks_s.Peers.{Message, signal, file_list, known_nodes, sends, later, send_nodes}
use innopolis_networks_s.PeerToPeer.ByteOrder.{ByteOrder, htonl_o}

module _ (b : ByteOrder) {V : Type 0} (form_node_message : V → Text) where
  -- The loop goes up to the number in network order.
  unfoldable pub sync_handler : Text → List Bool → LinkedList → Cmd (Node V) (List Message)
  sync_handler files bs nodepool =
      if not (sends bs)
      then pure []
      else if not (sends (later bs))
      then pure (signal ∷ [])
      else let n_known_nodes = htonl_o b (nodepool.size % 2 ^ 32) in
        if not (sends (later (later bs))) then pure (signal ∷ file_list files ∷ []) else do
          out ← send_nodes form_node_message n_known_nodes 0 (later (later (later bs))) nodepool
          pure (signal ∷ file_list files ∷ known_nodes n_known_nodes ∷ out)
