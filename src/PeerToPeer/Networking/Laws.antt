-- ===== src/PeerToPeer/Networking/Laws.antt =====
-- The sockets of a Windows node: who can send to whom.
use innopolis_networks_s.Base.{◌≡◌, ◌⊎◌, ℕ, Bool, true, false, ==ℤ-refl, ℤ, arith}
use innopolis_networks_s.Networking.{Pton, inaddr_any, failure}
use innopolis_networks_s.Networking.Sockets.{unused, named, joined_to, socket_after, is_joined}
use innopolis_networks_s.PeerToPeer.Networking.{init_tcp_client, init_tcp_server}

module _ (htons : ℕ → ℕ) (port : ℕ) (fd : ℤ) (p : Pton) (connect_ok : Bool) where
  -- `InitTCPClient` either returns -1, and its socket is joined to no peer, or returns its socket, joined
  -- to the address that was read at the very port to which `InitTCPServer`, given the same port, binds
  -- its own socket, if that `bind` works.
  pub init_tcp_client-init_tcp_server :
      (sfd : ℤ)
      → let r = init_tcp_client htons port fd p connect_ok in
        let t = init_tcp_server htons port sfd true in
        ((r.result ≡ failure) × (is_joined (socket_after fd unused r.calls) ≡ false))
        ⊎ ((r.result ≡ fd)
            × (socket_after fd unused r.calls ≡ joined_to p.addr (htons port))
            × (socket_after t.result unused t.calls ≡ named inaddr_any (htons port)))
  unfolding init_tcp_client init_tcp_server
  init_tcp_client-init_tcp_server sfd = ground (arith, ==ℤ-refl fd, ==ℤ-refl sfd)
