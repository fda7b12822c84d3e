-- ===== src/PeerToPeer/Syncer.antt =====
-- `SendSync` of Lab 7 Windows/PeerToPeer/PeerToPeer.c (lines 256 to 301) and `Syncer` (303 to
-- 319), with `ParseNode` (182 to 225) and `ParsePeer` (234 to 254) on the pool of nodes. What the texts
-- say is taken out by PeerToPeer/Messages.antt; the bytes that nothing writes are parameters. What C
-- does not define is a crash: here the `strcpy_s` in `ParseNode`, whose strings overlap.
pub mod Laws
pub mod Passes
use innopolis_networks_s.Base.{
  ℕ, zero, suc, ◌+◌, Bool, true, false, not, Option, none, some, List, [], ◌∷◌, if◌then◌else◌, ltb,
  length,
}
use innopolis_networks_s.Memory.{Cmd, Allocator, crash, pure, ◌>>=◌}
use innopolis_networks_s.Socket.{Recv, failed, closed, got}
use innopolis_networks_s.Text.{Text}
use innopolis_networks_s.LinkedList.{Node, LinkedList, insert_val, get_val}
use innopolis_networks_s.Peers.{NetworkNode, deref, parse_peer}
use innopolis_networks_s.PeerToPeer.ByteOrder.{ByteOrder, ntohl_o}
use innopolis_networks_s.PeerToPeer.Messages.{peer_of, node_of}
use innopolis_networks_s.PeerToPeer.Pool.{remove_inactive_node}

-- What a peer does in one sync: `send` to it, its signal, what it says of itself, the number of nodes
-- that it knows, and their addresses one by one.
pub record Answers : Type 0 where
  pub send_ok : Bool
  pub signal : Recv ℕ
  pub data_of : Recv Text
  pub count : Recv ℕ
  pub peers : List (Recv Text)

abbrev pub next_peer : List (Recv Text) → Recv Text
next_peer [] = closed
next_peer (r ∷ rs) = r

abbrev pub later_peers : List (Recv Text) → List (Recv Text)
later_peers [] = []
later_peers (r ∷ rs) = rs

-- `result < 0`
abbrev pub has_failed : {A : Type 0} → Recv A → Bool
has_failed failed = true
has_failed _ = false

module _ (b : ByteOrder) (strtoul : Text → ℕ) (stale_ip : Text) (stale : ℕ)
    (memcmp_eq : NetworkNode → NetworkNode → Bool) (al : Allocator (Node NetworkNode)) where
  -- The node goes in unseen; a list of more than two bytes is copied with one byte that nothing has
  -- written, and its first token comes to the `strcpy_s`.
  abbrev pub add_node : Option (NetworkNode × Text) → LinkedList → Cmd (Node NetworkNode) LinkedList
  add_node none nodepool = λ _. crash
  add_node (some (node, files)) nodepool = do
    (l, _) ← insert_val al nodepool 0 node
    if ltb 2 (length files) then (λ _. crash) else pure l

  -- A buffer that `recv` has not filled holds no text to take apart.
  abbrev pub take_node : Recv Text → LinkedList → Cmd (Node NetworkNode) LinkedList
  take_node (got text) nodepool = add_node (node_of strtoul stale_ip stale text) nodepool
  take_node _ nodepool = λ _. crash

  abbrev pub add_peer : Option NetworkNode → LinkedList → Cmd (Node NetworkNode) LinkedList
  add_peer none nodepool = λ _. crash
  add_peer (some node) nodepool = parse_peer memcmp_eq al nodepool node

  abbrev pub take_peer : Recv Text → LinkedList → Cmd (Node NetworkNode) LinkedList
  take_peer (got text) nodepool = add_peer (peer_of strtoul stale text) nodepool
  take_peer _ nodepool = λ _. crash

  -- `for (unsigned int i = 0; i < message; ++i)`, with `left` rounds to go
  unfoldable pub peers_loop : ℕ → List (Recv Text) → LinkedList → Cmd (Node NetworkNode) LinkedList
  peers_loop zero rs nodepool = pure nodepool
  peers_loop (suc left) rs nodepool = do
    l ← take_peer (next_peer rs) nodepool
    peers_loop left (later_peers rs) l

  abbrev pub take_peers : Recv ℕ → List (Recv Text) → LinkedList → Cmd (Node NetworkNode) LinkedList
  take_peers failed rs nodepool = pure nodepool
  take_peers closed rs nodepool = peers_loop (ntohl_o b 0) rs nodepool
  take_peers (got n) rs nodepool = peers_loop (ntohl_o b n) rs nodepool

  -- A wrong signal makes a warning only.
  unfoldable pub send_sync : Answers → NetworkNode → LinkedList → Cmd (Node NetworkNode) LinkedList
  send_sync x node nodepool =
      if not x.send_ok
      then remove_inactive_node memcmp_eq nodepool node
      else if has_failed x.signal
      then remove_inactive_node memcmp_eq nodepool node
      else if has_failed x.data_of
      then remove_inactive_node memcmp_eq nodepool node
      else do l ← take_node x.data_of nodepool; take_peers x.count x.peers l

  -- From the index `i`, with what the peers answer one after the other; the result is the index at
  -- which it stands.
  unfoldable pub syncer_for :
      List Answers → ℕ → LinkedList → Cmd (Node NetworkNode) (LinkedList × ℕ)
  syncer_for [] i nodepool = pure (nodepool, i)
  syncer_for (x ∷ xs) i nodepool = if not (ltb i nodepool.size) then pure (nodepool, i) else do
    v ← get_val nodepool i
    node ← deref v
    l ← send_sync x node nodepool
    syncer_for xs (i + 1) l

  -- `while (running)`, with the answers of each pass over the pool; it stands where those of a pass do
  -- not go on to the end.
  unfoldable pub syncer : List (List Answers) → LinkedList → Cmd (Node NetworkNode) LinkedList
  syncer [] nodepool = pure nodepool
  syncer (xs ∷ passes) nodepool = do
    (l, i) ← syncer_for xs 0 nodepool
    let rest : Cmd (Node NetworkNode) LinkedList = syncer passes l
    if ltb i l.size then pure l else rest
