-- ===== src/PeerToPeer/Networking.antt =====
-- The functions of Lab 7 Windows/PeerToPeer/networking.c that make and name sockets (lines 25 to 91),
-- with the calls and records of Networking.antt. INVALID_SOCKET is -1.
pub mod Laws
use innopolis_networks_s.Base.{
  ℕ, Bool, true, false, not, List, [], ◌∷◌, if◌then◌else◌, ℤ, pos, ltℤ, ◌==ℤ◌,
}
use innopolis_networks_s.Text.{Text}
use innopolis_networks_s.Networking.{
  Call, made, bound, connected, shut, Run, Address, Pton, inaddr_any, failure,
}

module _ (ntohs : ℕ → ℕ) (inet_ntop : ℕ → Text) where
  -- `addr` is what `getsockname` writes.
  unfoldable pub get_ip_and_port : Address → Text × ℕ
  get_ip_and_port addr = (inet_ntop addr.addr, ntohs addr.port)

module _ (htons : ℕ → ℕ) where
  unfoldable pub get_my_ip_and_port : (ℕ → ℕ) → (ℕ → Text) → ℤ → Bool → Address → Run (Text × ℕ)
  get_my_ip_and_port ntohs inet_ntop fd bind_ok addr = record {
    calls = made fd ∷ bound fd inaddr_any (htons 0) bind_ok ∷ shut fd ∷ [];
    result = get_ip_and_port ntohs inet_ntop addr;
  }

  -- No result is tested.
  unfoldable pub init_tcp_server : ℕ → ℤ → Bool → Run ℤ
  init_tcp_server port fd bind_ok = record {
    calls = made fd ∷ bound fd inaddr_any (htons port) bind_ok ∷ [];
    result = fd;
  }

  unfoldable pub init_tcp_client : ℕ → ℤ → Pton → Bool → Run ℤ
  init_tcp_client port fd p connect_ok =
      if fd ==ℤ failure
      then record { calls = made fd ∷ []; result = failure }
      else if ltℤ p.result (pos 0)
      then record { calls = made fd ∷ []; result = failure }
      else let calls = made fd ∷ connected fd p.addr (htons port) connect_ok ∷ [] in
        if not connect_ok
        then record { calls = calls; result = failure }
        else record { calls = calls; result = fd }
