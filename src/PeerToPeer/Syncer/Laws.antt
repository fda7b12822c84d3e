-- ===== src/PeerToPeer/Syncer/Laws.antt =====
-- What `SendSync` does with peers that answer and with peers that do not.
use innopolis_networks_s.Base.{
  ◌++◌, ◌∷◌, ℕ, ◌≤◌, ◌≡◌, refl, Bool, true, false, not, ◌||◌, List, length, Bool-cases, inl, inr,
  arith,
}
use innopolis_networks_s.Memory.{Memory, Allocator, crash}
use innopolis_networks_s.Memory.Ends.{Ends}
use innopolis_networks_s.Text.{Text}
use innopolis_networks_s.Socket.{got}
use innopolis_networks_s.LinkedList.{Node, LinkedList}
use innopolis_networks_s.LinkedList.Layout.{Cell, IsList}
use innopolis_networks_s.Messages.{portnum_len, node_data}
use innopolis_networks_s.Messages.RoundTrip.{IsSendable}
use innopolis_networks_s.Peers.{NetworkNode}
use innopolis_networks_s.PeerToPeer.ByteOrder.{ByteOrder}
use innopolis_networks_s.PeerToPeer.Messages.Laws.{node_of-node_data-none}
use innopolis_networks_s.PeerToPeer.Pool.{remove_inactive_node}
use innopolis_networks_s.LinkedList.Remove.{Removed}
use innopolis_networks_s.Peers.Laws.{Absent}
use innopolis_networks_s.PeerToPeer.Pool.Laws.{remove_first, Dropped, remove_inactive_node-Dropped}
use innopolis_networks_s.PeerToPeer.Syncer.{Answers, has_failed, send_sync}

-- It cannot be sent to, or gives no signal or nothing of itself.
abbrev pub is_silent : Answers → Bool
is_silent x = not x.send_ok || (has_failed x.signal || has_failed x.data_of)

module _ (b : ByteOrder) (strtoul : Text → ℕ) (stale_ip : Text) (stale : ℕ)
    (memcmp_eq : NetworkNode → NetworkNode → Bool) (al : Allocator (Node NetworkNode)) where
  silent_lem :
      (x : Answers) (node : NetworkNode) (m : Memory (Node NetworkNode)) (l : LinkedList)
      → is_silent x ≡ true
      → send_sync b strtoul stale_ip stale memcmp_eq al x node l m
        ≡ remove_inactive_node memcmp_eq l node m
  unfolding send_sync
  silent_lem x node m l silent = elim (Bool-cases (not x.send_ok)) [
    | inl e ↦ rw e refl
    | inr e ↦ elim (Bool-cases (has_failed x.signal)) [
      | inl e' ↦ rw (e, e') refl
      | inr e' ↦ let last : has_failed x.data_of ≡ true = ground arith in rw (e, e', last) refl
    ]
  ]

  -- With such a peer that the pool has, `SendSync` takes it out.
  pub send_sync-silent_first :
      (x : Answers) (m : Memory (Node NetworkNode)) (l : LinkedList)
      (xs ys : List (Cell NetworkNode)) (c : Cell NetworkNode)
      → IsList m l (xs ++ c ∷ ys)
      → is_silent x ≡ true
      → Absent (memcmp_eq c.val) xs
      → memcmp_eq c.val c.val ≡ true
      → Ends (Removed m xs ys c) (send_sync b strtoul stale_ip stale memcmp_eq al x c.val l m)
  send_sync-silent_first x m l xs ys c h silent absent found =
      rw (silent_lem x c.val m l silent) (remove_first memcmp_eq m l c.val xs ys c h absent found)

  -- `SendSync` with a peer that cannot be sent to, or for which `recv` fails before the peer has sent its
  -- data, never crashes on a pool in memory, of whatever length: it takes the first node out that
  -- `memcmp` finds equal to the peer, and that node only, or changes nothing if there is none (`Dropped`).
  pub send_sync-Dropped :
      (x : Answers) (node : NetworkNode) (m : Memory (Node NetworkNode)) (l : LinkedList)
      (cs : List (Cell NetworkNode))
      → IsList m l cs
      → is_silent x ≡ true
      → Ends
          (Dropped (memcmp_eq node) m l cs)
          (send_sync b strtoul stale_ip stale memcmp_eq al x node l m)
  send_sync-Dropped x node m l cs h silent =
      rw (silent_lem x node m l silent) (remove_inactive_node-Dropped memcmp_eq m l node cs h)

  -- `SendSync` with a peer that answers as `SyncHandler` does, with its own name, an address of six bytes
  -- or more and its port, and whatever list of files, crashes on every pool, since `ParseNode` takes the
  -- address for the port.
  pub send_sync-node_data :
      (sprintf_d : ℕ → Text) (x : Answers) (peer node : NetworkNode) (files : Text)
      (m : Memory (Node NetworkNode)) (l : LinkedList)
      → is_silent x ≡ false
      → x.data_of ≡ got (node_data sprintf_d peer.name peer.ipaddr peer.port files)
      → IsSendable sprintf_d strtoul peer
      → portnum_len ≤ length peer.ipaddr
      → send_sync b strtoul stale_ip stale memcmp_eq al x node l m ≡ crash
  unfolding send_sync
  send_sync-node_data sprintf_d x peer node files m l answers says h long =
      let sent : not x.send_ok ≡ false = ground arith in
      let signal : has_failed x.signal ≡ false = ground arith in
      rw
        (
          sent,
          signal,
          says,
          node_of-node_data-none sprintf_d strtoul peer files stale_ip stale h long,
        )
        refl
