-- ===== src/Exchange.antt =====
-- A sync between two nodes of Lab 7: what `sync_handler` of the one sends (Peers.antt) is what
-- `send_sync` of the other receives and takes apart (Pools.antt, Messages.antt; Lab 7/node.c lines 238 to
-- 273). Each call of `recv` gets what one call of `send` has sent; `stale` and `name_stale` are the bytes
-- that `malloc` has left in a `NetworkNode` and a `NodeFile`.
pub mod Synced
pub mod Nameless
mod Tests
use innopolis_networks_s.Base.{ℕ, true, Option, none, some, List, [], ◌∷◌, map, ℤ, pos}
use mathlib.Core.Option
use innopolis_networks_s.Text.{Text}
use innopolis_networks_s.Socket.{Recv, closed, got}
use innopolis_networks_s.Messages.{peer_of, node_of}
use innopolis_networks_s.Peers.{NetworkNode, Message, signal, file_list, known_nodes, node_address}
use innopolis_networks_s.Pools.{NodeFile, Answers}
use innopolis_networks_s.Incoming.{node_sync}

-- One message, or the end of the stream.
abbrev pub next : List Message → Option Message
next [] = none
next (x ∷ xs) = some x

abbrev pub rest : List Message → List Message
rest [] = []
rest (x ∷ xs) = xs

abbrev pub signal_of : Option Message → Recv ℤ
signal_of (some signal) = got node_sync
signal_of _ = closed

abbrev pub count_of : Option Message → Recv ℤ
count_of (some (known_nodes n)) = got (pos n)
count_of _ = closed

-- A text that cannot be taken apart is, like a buffer that was not filled, the end of the process.
abbrev pub parsed : {A : Type 0} → Option A → Recv A
parsed none = closed
parsed (some a) = got a

abbrev pub file_at : ℕ → NetworkNode → Text → NodeFile
file_at name_stale node name = record { name = name; node = node; stale = name_stale }

abbrev pub with_files : ℕ → NetworkNode × List Text → NetworkNode × List NodeFile
with_files name_stale (node, names) = (node, map (file_at name_stale node) names)

module _ (strtoul : Text → ℕ) (stale name_stale : ℕ) where
  -- `recv` into `buffer`, and what `parse_node` reads there
  abbrev pub data_of : Option Message → Recv (NetworkNode × List NodeFile)
  data_of (some (file_list text)) =
      parsed (Option.map (with_files name_stale) (node_of strtoul stale 0 text))
  data_of _ = closed

  -- `recv` into `peerbuf`, and what `parse_peer` reads there
  abbrev pub peer_from : Message → Recv NetworkNode
  peer_from (node_address text) = parsed (peer_of strtoul stale text)
  peer_from _ = closed

  -- What `send_sync` gets of these messages.
  unfoldable pub heard : List Message → Answers
  heard out = record {
    send_ok = true;
    signal = signal_of (next out);
    data_of = data_of (next (rest out));
    count = count_of (next (rest (rest out)));
    peers = map peer_from (rest (rest (rest out)));
  }
