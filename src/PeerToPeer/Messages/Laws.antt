-- ===== src/PeerToPeer/Messages/Laws.antt =====
-- What a node reads of the texts that other nodes write.
use innopolis_networks_s.Base.{
  ℕ, ◌+◌, ◌%◌, ◌^◌, ◌≤◌, ◌≡◌, refl, false, none, some, ◌∷◌, ◌++◌, leb, length, arith,
}
use innopolis_networks_s.Text.{Text}
use innopolis_networks_s.Text.Tokens.{strtok-delimiter, strtok-end}
use innopolis_networks_s.Peers.{NetworkNode}
use innopolis_networks_s.Messages.{
  nodename_len, inet_addrstrlen, portnum_len, copied, form_node_msg, node_data,
}
use innopolis_networks_s.Messages.RoundTrip.{IsSendable, copied-some}
use innopolis_networks_s.PeerToPeer.Messages.{peer_of, node_of}

copied-none : (cap : ℕ) (s : Text) → cap ≤ length s → copied cap s ≡ none
copied-none cap s h = let over : leb (length s + 1) cap ≡ false = ground arith in rw over refl

module _ (sprintf_d : ℕ → Text) (strtoul : Text → ℕ) where
  -- `ParsePeer` reads the name, address and port that `FormNodeMessage` wrote of a node whose strings fit
  -- and have no colon (`IsSendable`).
  pub peer_of-form_node_message :
      (node : NetworkNode)
      → IsSendable sprintf_d strtoul node
      → peer_of strtoul node.stale (form_node_msg sprintf_d node) ≡ some node
  unfolding peer_of form_node_msg
  peer_of-form_node_message node h =
      let port : strtoul (sprintf_d node.port) % 2 ^ 32 ≡ node.port =
        omega (arith, h.port_read, h.in_port) in
      rw
        (
          strtok-delimiter b':' node.name (node.ipaddr ++ b':' ∷ sprintf_d node.port) h.name,
          copied-some nodename_len node.name h.name_fits,
          strtok-delimiter b':' node.ipaddr (sprintf_d node.port) h.ipaddr,
          copied-some inet_addrstrlen node.ipaddr h.ipaddr_fits,
          strtok-end b':' (sprintf_d node.port) h.port,
          port,
        )
        refl

  -- `ParseNode` on what a node sends of itself (`IsSendable`), with an address of six bytes or more and
  -- whatever list of files: it ends the process, since it takes the address for the port.
  pub node_of-node_data-none :
      (node : NetworkNode) (files stale_ip : Text) (stale : ℕ)
      → IsSendable sprintf_d strtoul node
      → portnum_len ≤ length node.ipaddr
      → node_of strtoul stale_ip stale (node_data sprintf_d node.name node.ipaddr node.port files)
        ≡ none
  unfolding node_of node_data
  node_of-node_data-none node files stale_ip stale h long =
      rw
        (
          strtok-delimiter b':' node.name
              (node.ipaddr ++ b':' ∷ (sprintf_d node.port ++ b':' ∷ files)) h.name,
          copied-some nodename_len node.name h.name_fits,
          strtok-delimiter b':' node.ipaddr (sprintf_d node.port ++ b':' ∷ files) h.ipaddr,
          copied-none portnum_len node.ipaddr long,
        )
        refl
