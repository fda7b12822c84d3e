-- ===== src/Networking/Sockets.antt =====
-- What the calls make of the sockets: a socket is open from `socket` or `accept` to `close`, and an open
-- one has a state.
use innopolis_networks_s.Base.{Bool, true, false, List, [], ◌∷◌, if◌then◌else◌, ℤ, ◌==ℤ◌, ℕ}
use innopolis_networks_s.Networking.{Call, made, bound, listening, accepted, connected, shut}

pub data Socket : Type 0 where
  unused : Socket
  fresh : Socket
  named : (addr port : ℕ) → Socket
  waiting : Socket
  joined : Socket
  joined_to : (addr port : ℕ) → Socket

-- The state of the socket `x` after one call, from the state before.
abbrev pub after : ℤ → Call → Socket → Socket
after x (made fd) s = if fd ==ℤ x then fresh else s
after x (bound fd addr port true) s = if fd ==ℤ x then named addr port else s
after x (bound fd addr port false) s = s
after x (listening fd true) s = if fd ==ℤ x then waiting else s
after x (listening fd false) s = s
after x (accepted fd talk) s = if talk ==ℤ x then joined else s
after x (connected fd addr port true) s = if fd ==ℤ x then joined_to addr port else s
after x (connected fd addr port false) s = s
after x (shut fd) s = if fd ==ℤ x then unused else s

-- The state after all calls.
abbrev pub socket_after : ℤ → Socket → List Call → Socket
socket_after x s [] = s
socket_after x s (c ∷ cs) = socket_after x (after x c s) cs

-- The socket can be sent to.
abbrev pub is_joined : Socket → Bool
is_joined joined = true
is_joined (joined_to addr port) = true
is_joined _ = false
