-- ===== src/Peers.antt =====
-- The pool of known nodes of Lab 7/node.c: `remove_inactive_node`, `parse_peer`, the loop over peers
-- in `send_sync`, and `sync_handler`. What a peer sends, taken apart by `strtok`, comes in as a
-- `NetworkNode`; `memcmp` and the text of a node's message (`form_node_msg`) are parameters. The
-- values of the pool's list are the nodes themselves; `malloc` for them is taken to work. The pool has
-- fewer than 2^31 nodes, so that `sync_handler` counts them in an `int`.
pub mod Laws
pub mod Distinct
pub mod Passes
pub mod Pool
pub mod Sync
mod Tests
use innopolis_networks_s.Text.{Text}
use innopolis_networks_s.Base.{
  ℕ, zero, suc, ◌+◌, Bool, true, false, not, Option, none, some, List, [], ◌∷◌, if◌then◌else◌, ℤ,
  pos, negsuc, ltℤ,
}
use innopolis_networks_s.Memory.{Cmd, Allocator, crash, pure, ◌>>=◌}
use innopolis_networks_s.LinkedList.{Node, LinkedList, insert_val, delete_val, get_val, find_val}

-- `stale` stands for the bytes that no `sprintf` writes: they are what `malloc` found there, and `memcmp`
-- compares them with the others.
pub record NetworkNode : Type 0 where
  pub name : Text
  pub ipaddr : Text
  pub port : ℕ
  pub stale : ℕ

-- What `sync_handler` sends.
pub data Message : Type 0 where
  signal : Message
  file_list : Text → Message
  known_nodes : ℕ → Message
  node_address : Text → Message

-- The results of the calls of `send`, one by one; after the last one every call fails.
abbrev pub sends : List Bool → Bool
sends [] = false
sends (b ∷ bs) = b

abbrev pub later : List Bool → List Bool
later [] = []
later (b ∷ bs) = bs

module _ {V : Type 0} where
  -- The program reads through the pointer that `getVal` gives.
  abbrev pub deref : Option V → Cmd (Node V) V
  deref none = λ _. crash
  deref (some v) = pure v

  module _ (memcmp_eq : V → V → Bool) where
    -- the loop of `remove_inactive_node`, with `left` rounds to go, from the index `i`
    unfoldable pub remove_loop : V → ℕ → ℕ → LinkedList → Cmd (Node V) LinkedList
    remove_loop node zero i nodepool = pure nodepool
    remove_loop node (suc left) i nodepool = do
      v ← get_val nodepool i
      w ← deref v
      let rest : Cmd (Node V) LinkedList = remove_loop node left (i + 1) nodepool
      if memcmp_eq node w then (do (l, _) ← delete_val nodepool i; pure l) else rest

    unfoldable pub remove_inactive_node : LinkedList → V → Cmd (Node V) LinkedList
    remove_inactive_node nodepool node = remove_loop node nodepool.size 0 nodepool

    module _ (al : Allocator (Node V)) where
      unfoldable pub parse_peer : LinkedList → V → Cmd (Node V) LinkedList
      parse_peer nodepool node = do
        i ← find_val memcmp_eq nodepool node
        if ltℤ i (pos 0) then (do (l, _) ← insert_val al nodepool 0 node; pure l) else pure nodepool

      -- `for (int i = 0; i < message; ++i)`, for the peers that come
      unfoldable pub parse_peers : LinkedList → List V → Cmd (Node V) LinkedList
      parse_peers nodepool [] = pure nodepool
      parse_peers nodepool (p ∷ ps) = do l ← parse_peer nodepool p; parse_peers l ps

  module _ (form_node_msg : V → Text) where
    -- the loop of `sync_handler`, with `left` rounds to go, from the index `j`: the messages sent
    unfoldable pub send_nodes : ℕ → ℕ → List Bool → LinkedList → Cmd (Node V) (List Message)
    send_nodes zero j bs nodepool = pure []
    send_nodes (suc left) j bs nodepool = do
      v ← get_val nodepool j
      w ← deref v
      let rest : Cmd (Node V) (List Message) = send_nodes left (j + 1) (later bs) nodepool
      if sends bs then (do out ← rest; pure (node_address (form_node_msg w) ∷ out)) else pure []

    -- `files` is the node's own address with its list of files.
    unfoldable pub sync_handler : Text → List Bool → LinkedList → Cmd (Node V) (List Message)
    sync_handler files bs nodepool =
        if not (sends bs)
        then pure []
        else if not (sends (later bs))
        then pure (signal ∷ [])
        else if not (sends (later (later bs)))
        then pure (signal ∷ file_list files ∷ [])
        else do
          out ← send_nodes nodepool.size 0 (later (later (later bs))) nodepool
          pure (signal ∷ file_list files ∷ known_nodes nodepool.size ∷ out)
