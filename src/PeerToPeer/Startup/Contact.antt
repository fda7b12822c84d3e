-- ===== src/PeerToPeer/Startup/Contact.antt =====
-- The first sync of a Windows node with the node that its user has named.
use innopolis_networks_s.Base.{
  ℕ, ◌≤◌, ◌≡◌, inl, inr, refl, Bool, true, false, ltb, List, [], ◌∷◌, length, arith,
}
use innopolis_networks_s.Memory.{Memory, Allocator, crash}
use innopolis_networks_s.Memory.Alloc.{Refuses, Bounded}
use innopolis_networks_s.Memory.Ends
use innopolis_networks_s.Memory.Ends.{Ends, ends}
use innopolis_networks_s.Text.{Text}
use innopolis_networks_s.Socket.{got}
use innopolis_networks_s.LinkedList
use innopolis_networks_s.LinkedList.Find.{get_val_lem}
use innopolis_networks_s.Messages.{portnum_len, node_data}
use innopolis_networks_s.Messages.RoundTrip.{IsSendable}
use innopolis_networks_s.Peers.{NetworkNode}
use innopolis_networks_s.Startup.Laws.{Contacts}
use innopolis_networks_s.PeerToPeer.ByteOrder.{ByteOrder}
use innopolis_networks_s.PeerToPeer.Syncer.{Answers, syncer_for}
use innopolis_networks_s.PeerToPeer.Syncer.Laws.{is_silent, send_sync-node_data}
use innopolis_networks_s.PeerToPeer.Startup.{Calls, Node, Started, running, port_of, main}
use innopolis_networks_s.PeerToPeer.Startup.Laws.{main_lem}

module _ (b : ByteOrder) (sprintf_d : ℕ → Text) (strtoul : Text → ℕ) (stale_ip : Text) (stale : ℕ)
    (memcmp_eq : NetworkNode → NetworkNode → Bool)
    (al : Allocator (LinkedList.Node NetworkNode)) where
  -- The node runs, and the `for` of its `Syncer` crashes at these answers.
  abbrev pub Breaks : List Answers → Started → Memory (LinkedList.Node NetworkNode) → Type 0
  Breaks xs r m =
      (node : Node) × (r ≡ running node)
      × (syncer_for b strtoul stale_ip stale memcmp_eq al xs 0 node.nodepool m ≡ crash)

  -- If the user of a Windows node says yes and gives an address and a port, the calls of the system and
  -- the allocator work, and the node at that address answers the first sync as `SyncHandler` does, with a
  -- name and a port that fit, an address of six bytes or more and whatever list of files, then the
  -- `for` of `Syncer` crashes in its first round, since `ParseNode` takes the address for the port.
  pub syncer_for-main :
      (calls : Calls) (typed : List Text) (addr : Text) (port : ℕ)
      (m : Memory (LinkedList.Node NetworkNode)) (x : Answers) (xs : List Answers)
      (peer : NetworkNode) (files : Text)
      → Bounded m
      → ¬ Refuses al
      → Contacts (port_of strtoul) typed addr port
      → calls.heap_ok ≡ true
      → calls.wsa_ok ≡ true
      → calls.listener_ok ≡ true
      → is_silent x ≡ false
      → x.data_of ≡ got (node_data sprintf_d peer.name peer.ipaddr peer.port files)
      → IsSendable sprintf_d strtoul peer
      → portnum_len ≤ length peer.ipaddr
      → Ends (Breaks (x ∷ xs)) (main al stale calls strtoul typed m)
  unfolding syncer_for
  syncer_for-main calls typed addr port m x xs peer files bounded never told heap wsa listener
        answers says h long =
      Ends.weaken (main_lem al stale calls strtoul typed addr port m bounded told heap wsa listener)
        λ r m' q. (
          q.node,
          q.runs,
          elim q.pool [
            | inr (may, list) ↦ absurd (never may)
            | inl (c, e, list) ↦
                let on : ltb 0 q.node.nodepool.size ≡ true = ground (arith, list.size) in
                let read = get_val_lem m' q.node.nodepool [] [] c list in
                let broken =
                  send_sync-node_data b strtoul stale_ip stale memcmp_eq al sprintf_d x peer c.val
                    files m' q.node.nodepool answers says h long in
                rw (on, read, broken) refl
          ],
        )
