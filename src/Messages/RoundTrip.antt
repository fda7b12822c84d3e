-- ===== src/Messages/RoundTrip.antt =====
-- What one node writes of itself or of a peer, another one reads.
use innopolis_networks_s.Base.{
  ℕ, ◌+◌, ◌%◌, ◌^◌, ◌<◌, ◌≤◌, ◌≡◌, refl, length-append, true, some, List, [], ◌∷◌, ◌++◌, leb,
  length, arith,
}
use innopolis_networks_s.Text.{Text}
use innopolis_networks_s.Text.Tokens.{
  Without, IsWord, AllWords, joined, Without-append, strtok-delimiter, strtok-end,
}
use innopolis_networks_s.FileList.Written.{listed, listing, form_file_str_lem, length-listing}
use innopolis_networks_s.Base.Options.{◌>>=◌}
use innopolis_networks_s.FileList.RoundTrip.{AllStrings, parse_file_list-listing}
use innopolis_networks_s.Peers.{NetworkNode}
use innopolis_networks_s.Messages.{
  nodename_len, inet_addrstrlen, portnum_len, copied, form_node_msg, node_data, peer_of, node_of,
  filename_len, sendbuf_len, copied_all, sync_data,
}

pub copied-some : (cap : ℕ) (s : Text) → length s < cap → copied cap s ≡ some s
copied-some cap s h = let fits : leb (length s + 1) cap ≡ true = ground arith in rw fits refl

-- The strings of a node fit their buffers and have no colon, its port has 16 bits, and `strtoul` reads
-- what `%d` writes of it, at most five bytes without a colon.
pub record IsSendable (sprintf_d : ℕ → Text) (strtoul : Text → ℕ) (node : NetworkNode)
    : Type 0 where
  pub name : IsWord b':' node.name
  pub name_fits : length node.name < nodename_len
  pub ipaddr : IsWord b':' node.ipaddr
  pub ipaddr_fits : length node.ipaddr < inet_addrstrlen
  pub port : IsWord b':' (sprintf_d node.port)
  pub port_fits : length (sprintf_d node.port) < portnum_len
  pub port_read : strtoul (sprintf_d node.port) ≡ node.port
  pub in_port : node.port < 2 ^ 16

module _ (sprintf_d : ℕ → Text) (strtoul : Text → ℕ) where
  -- The round trip of a peer's address: `parse_peer` reads the name, address and port that
  -- `form_node_msg` wrote of a node whose strings fit and have no colon (`IsSendable`).
  pub peer_of-form_node_msg :
      (node : NetworkNode)
      → IsSendable sprintf_d strtoul node
      → peer_of strtoul node.stale (form_node_msg sprintf_d node) ≡ some node
  unfolding peer_of form_node_msg
  peer_of-form_node_msg node h =
      let port : strtoul (sprintf_d node.port) % 2 ^ 16 ≡ node.port =
        omega (arith, h.port_read, h.in_port) in
      rw
        (
          strtok-delimiter b':' node.name (node.ipaddr ++ b':' ∷ sprintf_d node.port) h.name,
          copied-some nodename_len node.name h.name_fits,
          strtok-delimiter b':' node.ipaddr (sprintf_d node.port) h.ipaddr,
          copied-some inet_addrstrlen node.ipaddr h.ipaddr_fits,
          strtok-end b':' (sprintf_d node.port) h.port,
          port,
        )
        refl

  joined-colon : (ns : List Text) → AllWords b':' ns → Without b':' (joined b',' ns)
  unfolding joined
  joined-colon [] h = tt
  joined-colon ((c ∷ n) ∷ []) h = h.0
  joined-colon ((c ∷ n) ∷ k ∷ ns) h =
      Without-append b':' (c ∷ n) (b',' ∷ joined b',' (k ∷ ns)) h.0
        (omega arith, joined-colon (k ∷ ns) h.1)
  joined-colon ([] ∷ ns) h = absurd h.0

  pub listing-colon : (ns : List Text) → AllWords b':' ns → IsWord b':' (listing ns)
  listing-colon [] h = (omega arith, tt)
  listing-colon (n ∷ ns) h = (
    omega arith,
    Without-append b':' (joined b',' (n ∷ ns)) (b']' ∷ []) (joined-colon (n ∷ ns) h)
        (omega arith, tt),
  )

  -- Every name is a part of the list, so that it fits where the list does.
  copied_all-listed :
      (names : List Text) → length (listed names) < filename_len → copied_all names ≡ some names
  unfolding copied_all
  copied_all-listed [] h = refl
  copied_all-listed (n ∷ ns) h =
      let len = length-append n (b',' ∷ listed ns) in
      rw
        (copied-some filename_len n (omega (arith, len)), copied_all-listed ns (omega (arith, len)))
        refl

  pub node_of-node_data :
      (node : NetworkNode) (names : List Text)
      → IsSendable sprintf_d strtoul node
      → AllWords b',' names
      → AllWords b':' names
      → AllStrings names
      → length (listed names) < filename_len
      → node_of strtoul node.stale 0
          (node_data sprintf_d node.name node.ipaddr node.port (listing names))
        ≡ some (node, names)
  unfolding node_of node_data
  node_of-node_data node names h commas colons strings fit =
      let port : strtoul (sprintf_d node.port) % 2 ^ 16 ≡ node.port =
        omega (arith, h.port_read, h.in_port) in
      rw
        (
          strtok-delimiter b':' node.name
              (node.ipaddr ++ b':' ∷ (sprintf_d node.port ++ b':' ∷ listing names)) h.name,
          copied-some nodename_len node.name h.name_fits,
          strtok-delimiter b':' node.ipaddr (sprintf_d node.port ++ b':' ∷ listing names) h.ipaddr,
          copied-some inet_addrstrlen node.ipaddr h.ipaddr_fits,
          strtok-delimiter b':' (sprintf_d node.port) (listing names) h.port,
          copied-some portnum_len (sprintf_d node.port) h.port_fits,
          strtok-end b':' (listing names) (listing-colon names colons),
          port,
          parse_file_list-listing names commas strings,
          copied_all-listed names fit,
        )
        refl

  -- `sendbuf` has room for all that fits the other buffers.
  pub sync_data-listing :
      (name ip : Text) (portval : ℕ) (names : List Text) (filename : Text)
      → length name < nodename_len
      → length ip < inet_addrstrlen
      → length (sprintf_d portval) < portnum_len
      → length (listed names) + 2 ≤ filename_len
      → sync_data sprintf_d name ip portval (some names) filename
        ≡ some (node_data sprintf_d name ip portval (listing names))
  unfolding sync_data node_data
  sync_data-listing name ip portval names filename short short' short'' room =
      let fits : leb (length (listed names) + 2) filename_len ≡ true = ground arith in
      let tail = sprintf_d portval ++ b':' ∷ listing names in
      rw (form_file_str_lem filename_len names filename (omega arith), fits)
        (copied-some sendbuf_len (name ++ b':' ∷ (ip ++ b':' ∷ tail)) (
          omega (
            arith,
            length-append name (b':' ∷ (ip ++ b':' ∷ tail)),
            length-append ip (b':' ∷ tail),
            length-append (sprintf_d portval) (b':' ∷ listing names),
            length-listing names,
          )))

  -- The round trip of a sync: `parse_node` reads, from the text that `sync_handler` puts together of the
  -- name, address and port of a node and of the names of its files, that name, address and port and all
  -- these names in order. The conditions: the name, the address and what `%d` writes of the port are not
  -- empty, have no colon and fit their buffers (`IsSendable`), as a node's name that nothing has set does
  -- not; the names of the files, with a comma behind each, fit 22 bytes, so that `form_file_str` stays in
  -- its buffer of 24; none of them is empty or has a comma, a colon or a 0 in it; and the byte that
  -- `memcpy` does not reach is 0.
  pub node_of-sync_data :
      (node : NetworkNode) (names : List Text) (filename : Text)
      → IsSendable sprintf_d strtoul node
      → AllWords b',' names
      → AllWords b':' names
      → AllStrings names
      → length (listed names) + 2 ≤ filename_len
      → (sync_data sprintf_d node.name node.ipaddr node.port (some names) filename
          >>= node_of strtoul node.stale 0)
        ≡ some (node, names)
  node_of-sync_data node names filename h commas colons strings room =
      rw
        (sync_data-listing node.name node.ipaddr node.port names filename h.name_fits h.ipaddr_fits
          h.port_fits room)
        (node_of-node_data node names h commas colons strings (omega (arith, room)))
