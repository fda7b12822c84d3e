-- ===== src/DatagramClient.antt =====
-- The client of Lab 5, Lab 5/client.c: it sends one datagram to the server and prints the number of the
-- thread that answers. The results of the calls are data; a datagram is a list of bytes. The machine
-- has the lowest byte first, 8 bytes in a `pthread_t` and 4 in the `unsigned` that `printf` takes.
pub mod Laws
mod Tests
use innopolis_networks_s.Base.{
  ℕ, zero, suc, ◌+◌, ◌*◌, Bool, not, Option, none, some, List, [], ◌∷◌, if◌then◌else◌, ℤ, pos, ltℤ,
  take, replicate,
}
use innopolis_networks_s.Socket.{Recv, got}

-- `buffer`, with the value 0
abbrev pub buffer : List ℕ
buffer = replicate 8 0

-- `recvfrom` writes the bytes of the datagram over those of the buffer, as far as it goes.
unfoldable pub overwrite : (datagram old : List ℕ) → List ℕ
overwrite [] old = old
overwrite (b ∷ bs) [] = []
overwrite (b ∷ bs) (o ∷ old) = b ∷ overwrite bs old

-- The number with these bytes, the lowest first.
unfoldable pub value : List ℕ → ℕ
value [] = 0
value (b ∷ bs) = b + 256 * value bs

-- `%u` of the buffer
abbrev pub shown : List ℕ → ℕ
shown buf = value (take 4 buf)

-- The buffer after the call: without a datagram nothing is written.
abbrev pub after_recv : Recv (List ℕ) → List ℕ → List ℕ
after_recv (got datagram) old = overwrite datagram old
after_recv _ old = old

-- What is printed in the end, or `none` for EXIT_FAILURE. The result of `recvfrom` is not tested.
unfoldable pub main : ℤ → Bool → Recv (List ℕ) → Option ℕ
main sockfd send_ok reply =
    if ltℤ sockfd (pos 0)
    then none
    else if not send_ok
    then none
    else some (shown (after_recv reply buffer))
