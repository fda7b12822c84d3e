-- ===== src/DatagramClient/Laws.antt =====
-- The number that the client prints.
use innopolis_networks_s.Base.{
  ℕ, zero, suc, ◌+◌, ◌*◌, ◌/◌, ◌%◌, ◌^◌, ◌≡◌, ap, true, some, List, [], ◌∷◌, pos, ltℤ, false, arith,
}
use innopolis_networks_s.Socket.{got}
use innopolis_networks_s.DatagramClient.{overwrite, value, main}

-- The bytes of a number, the lowest first.
abbrev pub bytes_of : ℕ → ℕ → List ℕ
bytes_of zero n = []
bytes_of (suc k) n = n % 256 ∷ bytes_of k (n / 256)

low_bytes :
    (n : ℕ)
    → n % 256
        + 256
          * (n / 256 % 256
              + 256 * (n / 256 / 256 % 256 + 256 * (n / 256 / 256 / 256 % 256 + 256 * 0)))
      ≡ n % 2 ^ 32
low_bytes n = omega arith

-- If its own calls work and the server sends the 8 bytes of the number of its thread, then the client
-- prints the number modulo 2^32.
pub main-bytes_of :
    (sockfd thread : ℕ) → main (pos sockfd) true (got (bytes_of 8 thread)) ≡ some (thread % 2 ^ 32)
unfolding main overwrite value
main-bytes_of sockfd thread =
    let valid : ltℤ (pos sockfd) (pos 0) ≡ false = ground arith in
    rw valid (ap some (low_bytes thread))
