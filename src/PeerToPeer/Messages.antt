-- ===== src/PeerToPeer/Messages.antt =====
-- What a node takes out of the texts of other nodes in Lab 7 Windows/PeerToPeer/PeerToPeer.c: `ParsePeer`
-- (lines 235 to 249) and `ParseNode` (183 to 202). The texts are written as in Lab 7. As in
-- Messages.antt `strtoul` is a parameter; `sprintf_s` ends the process, instead of a write past the end
-- of a buffer, where the result here is `none`.
pub mod Laws
use innopolis_networks_s.Base.{ℕ, ◌%◌, ◌^◌, Option, none, some}
use innopolis_networks_s.Base.Options.{◌>>=◌}
use innopolis_networks_s.Text.{Text, strtok}
use innopolis_networks_s.Messages.{copied, nodename_len, inet_addrstrlen, portnum_len}
use innopolis_networks_s.Peers.{NetworkNode}

-- A port is an `int` of 32 bits.
module _ (strtoul : Text → ℕ) where
  unfoldable pub peer_of : ℕ → Text → Option NetworkNode
  peer_of stale peer_data = do
    (name, rest) ← strtok b':' peer_data
    name ← copied nodename_len name
    (ip, rest) ← strtok b':' rest
    ip ← copied inet_addrstrlen ip
    (port, rest) ← strtok b':' rest
    some (record { name = name; ipaddr = ip; port = strtoul port % 2 ^ 32; stale = stale })

  -- The node, and the token that is taken for the list of files. Nothing writes the address of the
  -- node: `stale_ip` is what the heap holds there.
  unfoldable pub node_of : (stale_ip : Text) (stale : ℕ) → Text → Option (NetworkNode × Text)
  node_of stale_ip stale node_data = do
    (name, rest) ← strtok b':' node_data
    name ← copied nodename_len name
    (port, rest) ← strtok b':' rest
    port ← copied portnum_len port
    (files, rest) ← strtok b':' rest
    some (
      record { name = name; ipaddr = stale_ip; port = strtoul port % 2 ^ 32; stale = stale },
      files,
    )
