-- ===== src/Messages.antt =====
-- What nodes send of themselves as text, Lab 7/node.c: `form_node_msg` (lines 20 to 22), the text that
-- `sync_handler` puts together (lines 132 to 141), and how `parse_peer` (lines 221 to 231) and
-- `parse_node` (lines 173 to 209) take these apart with `strtok`. `%d` of a port is the parameter
-- `sprintf_d`, and `strtoul` is a parameter. A result `none` is a read through the NULL of `strtok` or
-- a write past the end of a buffer.
pub mod RoundTrip
pub mod Nameless
mod Tests
use innopolis_networks_s.Base.{
  ℕ, ◌+◌, ◌%◌, ◌^◌, ◌&&◌, Option, none, some, List, [], ◌∷◌, ◌++◌, if◌then◌else◌, leb, length,
}
use innopolis_networks_s.Base.Options.{◌>>=◌}
use innopolis_networks_s.Text.{Text, strtok}
use innopolis_networks_s.FileList.{form_file_str, parse_file_list}
use innopolis_networks_s.Peers.{NetworkNode}

-- NODENAME_LEN, INET_ADDRSTRLEN, the size of `portnum`, FILENAME_LEN
abbrev pub nodename_len : ℕ
nodename_len = 32

abbrev pub inet_addrstrlen : ℕ
inet_addrstrlen = 16

abbrev pub portnum_len : ℕ
portnum_len = 6

abbrev pub filename_len : ℕ
filename_len = 24

-- SENDBUF_LEN
abbrev pub sendbuf_len : ℕ
sendbuf_len = 512

-- The global `node_name`, to which nothing writes.
abbrev pub node_name : Text
node_name = []

-- A string with its 0 fits a buffer.
abbrev pub copied : ℕ → Text → Option Text
copied cap s = if leb (length s + 1) cap then some s else none

-- `strcpy(file->name, tok)` for each of these
unfoldable pub copied_all : List Text → Option (List Text)
copied_all [] = some []
copied_all (name ∷ names) = do
  name ← copied filename_len name
  names ← copied_all names
  some (name ∷ names)

module _ (sprintf_d : ℕ → Text) where
  unfoldable pub form_node_msg : NetworkNode → Text
  form_node_msg node = node.name ++ b':' ∷ (node.ipaddr ++ b':' ∷ sprintf_d node.port)

  -- The text of `sprintf(sendbuf, "%s:%s:%d:", …)` and `strcat(sendbuf, filename)`.
  unfoldable pub node_data : Text → Text → ℕ → Text → Text
  node_data name ip port files = name ++ b':' ∷ (ip ++ b':' ∷ (sprintf_d port ++ b':' ∷ files))

  -- What `sync_handler` puts into `sendbuf`, of the files in the directory that it shares, if that can be
  -- read; `filename` is what that buffer holds before.
  unfoldable pub sync_data : Text → Text → ℕ → Option (List Text) → (filename : Text) → Option Text
  sync_data name ip port shared filename = do
    (size, files) ← form_file_str filename_len shared filename
    copied sendbuf_len (node_data name ip port files)

module _ (strtoul : Text → ℕ) where
  -- A port is an `in_port_t` of 16 bits; `stale` are the bytes that `malloc` left in the structure.
  unfoldable pub peer_of : ℕ → Text → Option NetworkNode
  peer_of stale peerdata = do
    (name, rest) ← strtok b':' peerdata
    name ← copied nodename_len name
    (ip, rest) ← strtok b':' rest
    ip ← copied inet_addrstrlen ip
    (port, rest) ← strtok b':' rest
    some (record { name = name; ipaddr = ip; port = strtoul port % 2 ^ 16; stale = stale })

  -- The node, and the names of its files.
  unfoldable pub node_of : (stale garbage : ℕ) → Text → Option (NetworkNode × List Text)
  node_of stale garbage nodedata = do
    (name, rest) ← strtok b':' nodedata
    name ← copied nodename_len name
    (ip, rest) ← strtok b':' rest
    ip ← copied inet_addrstrlen ip
    (port, rest) ← strtok b':' rest
    port ← copied portnum_len port
    (files, rest) ← strtok b':' rest
    names ← copied_all (parse_file_list garbage files)
    some (record { name = name; ipaddr = ip; port = strtoul port % 2 ^ 16; stale = stale }, names)
