-- ===== src/PeerToPeer/ByteOrder.antt =====
-- `htonlO` and `ntohlO` of Lab 7 Windows/PeerToPeer/networking.c (lines 4 to 23).
use innopolis_networks_s.Base.{ℕ, ◌<◌, ◌^◌, ◌≡◌, Bool, true, if◌then◌else◌}

-- `htonl` and `ntohl` of the sockets library, on 32 bits.
pub record ByteOrder : Type 0 where
  pub htonl : ℕ → ℕ
  pub ntohl : ℕ → ℕ
  pub ntohl_htonl : (n : ℕ) → n < 2 ^ 32 → ntohl (htonl n) ≡ n
  pub htonl_zero : htonl 0 ≡ 0

-- KEEP_BYTE_ORDER is not defined.
abbrev pub use_htons : Bool
use_htons = true

module _ (b : ByteOrder) where
  abbrev pub htonl_o : ℕ → ℕ
  htonl_o val = if use_htons then b.htonl val else val

  abbrev pub ntohl_o : ℕ → ℕ
  ntohl_o val = if use_htons then b.ntohl val else val
