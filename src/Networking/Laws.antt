-- ===== src/Networking/Laws.antt =====
-- What the functions of Lab 7/networking.c leave of the sockets.
use innopolis_networks_s.Base.{◌≡◌, ℕ, Bool, false, ℤ, arith}
use innopolis_networks_s.Networking.{Pton, init_tcp_client}
use innopolis_networks_s.Networking.Sockets.{unused, socket_after, is_joined}

module _ (htons : ℕ → ℕ) where
  -- `init_tcp_client` joins no socket to a peer, whatever its calls give.
  pub init_tcp_client-is_joined :
      (x : ℤ) (port : ℕ) (fd : ℤ) (p : Pton) (bind_ok : Bool)
      → is_joined (socket_after x unused (init_tcp_client htons port fd p bind_ok).calls) ≡ false
  unfolding init_tcp_client
  init_tcp_client-is_joined x port fd p bind_ok = ground arith
