-- ===== src/Ping.antt =====
-- `recvsend`, `sendrecv` and `ping` of Lab 7/networking.c (lines 117 to 191).
pub mod Laws
mod Tests
use innopolis_networks_s.Base.{
  ℕ, ◌+◌, Bool, not, List, [], ◌∷◌, if◌then◌else◌, ℤ, pos, negsuc, ltℤ, ◌==ℤ◌,
}
use innopolis_networks_s.Socket.{Recv, failed, closed, got, received}

-- The results of `send` and of `read` in one exchange.
pub record Exchange (A : Type 0) : Type 0 where
  pub send_ok : Bool
  pub answer : Recv A

abbrev pub read_failed : {A : Type 0} → Recv A → Bool
read_failed failed = Bool.true
read_failed _ = Bool.false

-- What a call did: its result, the read buffer, and whether `send` was called.
pub record Done (A : Type 0) : Type 0 where
  pub result : ℤ
  pub readbuf : A
  pub sent : Bool

module _ {A : Type 0} where
  -- `read`, then `send`
  unfoldable pub recvsend : ℤ → Exchange A → A → Done A
  recvsend conn_socket x readbuf =
      if ltℤ conn_socket (pos 0)
      then record { result = negsuc 0; readbuf = readbuf; sent = Bool.false }
      else if read_failed x.answer
      then record { result = negsuc 0; readbuf = received x.answer readbuf; sent = Bool.false }
      else if not x.send_ok
      then record { result = negsuc 0; readbuf = received x.answer readbuf; sent = Bool.true }
      else record { result = pos 0; readbuf = received x.answer readbuf; sent = Bool.true }

  -- `send`, then `read`
  unfoldable pub sendrecv : ℤ → Exchange A → A → Done A
  sendrecv conn_socket x readbuf =
      if ltℤ conn_socket (pos 0)
      then record { result = negsuc 0; readbuf = readbuf; sent = Bool.false }
      else if not x.send_ok
      then record { result = negsuc 0; readbuf = readbuf; sent = Bool.true }
      else if read_failed x.answer
      then record { result = negsuc 0; readbuf = received x.answer readbuf; sent = Bool.true }
      else record { result = pos 0; readbuf = received x.answer readbuf; sent = Bool.true }

-- One round of the loop on the count of successes and the read buffer.
unfoldable pub ping_round : ℤ → Exchange ℤ → ℕ × ℤ → ℕ × ℤ
ping_round conn_socket x (success, readbuf) =
    if ltℤ conn_socket (pos 0)
    then (success, readbuf)
    else (let r = sendrecv conn_socket x readbuf in
        if ltℤ r.result (pos 0)
        then (success, negsuc 0)
        else if r.readbuf ==ℤ pos 0
        then (success + 1, negsuc 0)
        else (success, negsuc 0))

unfoldable pub ping_loop : ℤ → List (Exchange ℤ) → ℕ × ℤ → ℕ × ℤ
ping_loop conn_socket [] state = state
ping_loop conn_socket (x ∷ xs) state = ping_loop conn_socket xs (ping_round conn_socket x state)

-- `ping` with `n` rounds, `n` not negative, for each of which the list has the results of the calls.
unfoldable pub ping : ℤ → List (Exchange ℤ) → ℕ
ping conn_socket xs = (ping_loop conn_socket xs (0, negsuc 0)).0
