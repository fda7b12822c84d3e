-- ===== src/Pools.antt =====
-- The pool of nodes and the pool of files of Lab 7/node.c, two lists in one memory: `parse_node` (lines
-- 173 to 210), `send_sync` (238 to 273) and `syncer` (275 to 290). What a peer sends comes
-- in as data, taken apart by Messages.antt.
pub mod Invariant
pub mod Sync
pub mod Silent
pub mod Skips
pub mod Passes
pub mod Syncer
pub mod Unjoined
mod Tests
use innopolis_networks_s.Base.{
  ◌+◌, ltb, ℕ, zero, suc, Bool, true, false, not, Option, none, some, List, [], ◌∷◌, map,
  if◌then◌else◌, ℤ, pos, negsuc, ltℤ,
}
use innopolis_networks_s.Memory.{Cmd, Allocator, crash, pure, ◌>>=◌}
use innopolis_networks_s.Socket.{Recv, failed, closed, got}
use innopolis_networks_s.Text.{Text}
use innopolis_networks_s.LinkedList.{Node, LinkedList, insert_val, get_val}
use innopolis_networks_s.Peers.{NetworkNode, remove_inactive_node, parse_peer, parse_peers}

-- `stale` are the bytes of the name's buffer that `strcpy` does not reach.
pub record NodeFile : Type 0 where
  pub name : Text
  pub node : NetworkNode
  pub stale : ℕ

-- What the `void *` of a list points to.
pub data Value : Type 0 where
  peer : NetworkNode → Value
  shared : NodeFile → Value

pub record Pools : Type 0 where
  pub nodepool : LinkedList
  pub filepool : LinkedList

-- What a peer does in one sync: `send` to it, its signal, what it says of itself, the number of nodes
-- that it knows, and their addresses one by one.
pub record Answers : Type 0 where
  pub send_ok : Bool
  pub signal : Recv ℤ
  pub data_of : Recv (NetworkNode × List NodeFile)
  pub count : Recv ℤ
  pub peers : List (Recv NetworkNode)

-- A buffer that `recv` has not filled holds no text to take apart.
abbrev pub filled : {A : Type 0} → Recv A → Cmd (Node Value) A
filled (got a) = pure a
filled _ = λ _. crash

abbrev pub next_peer : List (Recv NetworkNode) → Recv NetworkNode
next_peer [] = closed
next_peer (r ∷ rs) = r

abbrev pub later_peers : List (Recv NetworkNode) → List (Recv NetworkNode)
later_peers [] = []
later_peers (r ∷ rs) = rs

abbrev pub rounds : ℤ → ℕ
rounds (pos n) = n
rounds (negsuc n) = 0

abbrev pub no_signal : Recv ℤ → Bool
no_signal (got v) = ltℤ v (pos 0)
no_signal _ = true

module _ (memcmp_eq : Value → Value → Bool) (al : Allocator (Node Value)) where
  -- The node goes in unseen, each file only if the pool does not have it.
  unfoldable pub parse_node : Pools → NetworkNode → List NodeFile → Cmd (Node Value) Pools
  parse_node pools node files = do
    (nodepool, _) ← insert_val al pools.nodepool 0 (peer node)
    filepool ← parse_peers memcmp_eq al pools.filepool (map shared files)
    pure (record { nodepool = nodepool; filepool = filepool })

  -- `for (int i = 0; i < message; ++i)`, with `left` rounds to go
  unfoldable pub peers_loop : ℕ → List (Recv NetworkNode) → LinkedList → Cmd (Node Value) LinkedList
  peers_loop zero rs nodepool = pure nodepool
  peers_loop (suc left) rs nodepool = do
    node ← filled (next_peer rs)
    l ← parse_peer memcmp_eq al nodepool (peer node)
    peers_loop left (later_peers rs) l

  abbrev pub take_peers : Recv ℤ → List (Recv NetworkNode) → Pools → Cmd (Node Value) Pools
  take_peers failed rs pools = pure pools
  take_peers closed rs pools = pure pools
  take_peers (got n) rs pools = do
    l ← peers_loop (rounds n) rs pools.nodepool
    pure (record pools { nodepool = l })

  abbrev pub drop_node : Pools → NetworkNode → Cmd (Node Value) Pools
  drop_node pools node = do
    l ← remove_inactive_node memcmp_eq pools.nodepool (peer node)
    pure (record pools { nodepool = l })

  unfoldable pub send_sync : Answers → NetworkNode → Pools → Cmd (Node Value) Pools
  send_sync x node pools =
      if not x.send_ok
      then drop_node pools node
      else if no_signal x.signal
      then drop_node pools node
      else do
        (other, files) ← filled x.data_of
        pools ← parse_node pools other files
        take_peers x.count x.peers pools

  -- `for (size_t i = 0; i < nodepool->size; ++i)` in `syncer`, from the index `i`, with what the peers
  -- answer one after the other; the result is the index at which it stands. A block read as a node that
  -- holds a file gives the node `reinterpret` of it.
  module _ (reinterpret : NodeFile → NetworkNode) where
    abbrev pub as_node : Option Value → Cmd (Node Value) NetworkNode
    as_node none = λ _. crash
    as_node (some (peer node)) = pure node
    as_node (some (shared file)) = pure (reinterpret file)

    unfoldable pub syncer_for : List Answers → ℕ → Pools → Cmd (Node Value) (Pools × ℕ)
    syncer_for [] i pools = pure (pools, i)
    syncer_for (x ∷ xs) i pools = if not (ltb i pools.nodepool.size) then pure (pools, i) else do
      v ← get_val pools.nodepool i
      node ← as_node v
      pools ← send_sync x node pools
      syncer_for xs (i + 1) pools

    -- `while (running)`, with the answers of each pass over the pool; it stands where those of a pass do
    -- not go on to the end.
    unfoldable pub syncer : List (List Answers) → Pools → Cmd (Node Value) Pools
    syncer [] pools = pure pools
    syncer (xs ∷ passes) pools = do
      (pools, i) ← syncer_for xs 0 pools
      let rest : Cmd (Node Value) Pools = syncer passes pools
      if ltb i pools.nodepool.size then pure pools else rest
