-- ===== src/PeerToPeer/Pool.antt =====
-- The pool of nodes in Lab 7 Windows/PeerToPeer/PeerToPeer.c: `RemoveInactiveNode` (lines 227 to 232).
-- `ParsePeer` works on the pool as `parse_peer` of Peers.antt.
pub mod Laws
use innopolis_networks_s.Base.{Bool, ℤ, pos, negsuc}
use innopolis_networks_s.Memory.{Cmd, pure, ◌>>=◌}
use innopolis_networks_s.LinkedList.{Node, LinkedList, delete_val_windows, find_val}

module _ {V : Type 0} where
  abbrev pub delete_at : LinkedList → ℤ → Cmd (Node V) LinkedList
  delete_at nodepool (negsuc n) = pure nodepool
  delete_at nodepool (pos ix) = do (l, _) ← delete_val_windows nodepool ix; pure l

  unfoldable pub remove_inactive_node :
      (memcmp_eq : V → V → Bool) → LinkedList → V → Cmd (Node V) LinkedList
  remove_inactive_node memcmp_eq nodepool node = do
    ix ← find_val memcmp_eq nodepool node
    delete_at nodepool ix
