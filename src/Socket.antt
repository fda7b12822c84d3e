-- ===== src/Socket.antt =====
-- What the calls of sockets give to the programs of the labs. The sockets themselves are not modelled.

-- `recv`, `recvfrom` or `read`: an error (-1), the end of the stream (0), or data.
pub data Recv (A : Type 0) : Type 0 where
  failed : Recv A
  closed : Recv A
  got : A → Recv A

-- The buffer after the call: it is written only if there is data.
abbrev pub received : {A : Type 0} → Recv A → A → A
received failed old = old
received closed old = old
received (got a) old = a
