-- ===== src/DatagramServer.antt =====
-- The server of Lab 5, Lab 5/server2.c: for each datagram it starts a thread (`server_job`, lines 17 to
-- 35) that answers the client later. A thread gets a block of its own with the client's address. `A` is
-- the type of addresses; the text of the datagrams is left out.
pub mod Threads
pub mod Schedules
pub mod Setup
mod Tests
use innopolis_networks_s.Base.{
  ℕ, ◌≡◌, Bool, true, false, List, [], ◌∷◌, ◌++◌, ◌==◌, ltb, if◌then◌else◌, ℤ, pos, negsuc,
}
use innopolis_networks_s.Memory.{
  Ptr, null, Memory, Cmd, Outcome, Allocator, done, crash, pure, ◌>>=◌, ◌>>◌, load, release, alloc,
}

-- BUF_SIZE
abbrev pub buf_size : ℕ
buf_size = 512

pub record ClientConnection (A : Type 0) : Type 0 where
  pub sockfd : ℤ
  pub addr : A

-- What `recvfrom` gives: its result, and the address of the client.
pub record Datagram (A : Type 0) : Type 0 where
  pub result : ℤ
  pub addr_client : A

-- The arguments of the threads that have not begun, and what those that have begun answer, that is the
-- socket and the address with which they call `sendto`.
pub record Server (A : Type 0) : Type 0 where
  pub waiting : List Ptr
  pub answered : List (ClientConnection A)

-- `buf[result]` lies in the buffer.
abbrev pub in_buf : ℤ → Bool
in_buf (pos n) = ltb n buf_size
in_buf (negsuc n) = false

module _ {A : Type 0} where
  abbrev pub idle : Server A
  idle = record { waiting = []; answered = [] }

  -- Up to the first call that takes time; after it the thread works with its own copies alone.
  unfoldable pub server_job : Ptr → Cmd (ClientConnection A) (ClientConnection A)
  server_job args = do conn ← load args; release args; pure conn

  -- A thread begins: the one with the argument `args`, which waits between `ts` and `us`.
  unfoldable pub begin_with :
      (ts us : List Ptr) → Ptr → Server A → Cmd (ClientConnection A) (Server A)
  begin_with ts us args s = do
    conn ← server_job args
    pure (record { waiting = ts ++ us; answered = s.answered ++ conn ∷ [] })

  -- `conn->addr = addr_client` is a write through `conn`, which is not tested for NULL.
  abbrev pub start_thread : Ptr → Server A → Cmd (ClientConnection A) (Server A)
  start_thread conn s =
      if conn == null then (λ _. crash) else pure (record s { waiting = s.waiting ++ conn ∷ [] })

  module _ (al : Allocator (ClientConnection A)) (sockfd : ℤ) where
    abbrev pub connection : Datagram A → ClientConnection A
    connection d = record { sockfd = sockfd; addr = d.addr_client }

    -- One round of `while (1)`.
    unfoldable pub receive : Datagram A → Server A → Cmd (ClientConnection A) (Server A)
    receive d s =
        if in_buf d.result then (do conn ← alloc al (connection d); start_thread conn s) else λ _.
        crash

    -- The loop and the threads take their steps in any order, from the memory `m0`; the list has the
    -- datagrams, the last first.
    pub data Steps (m0 : Memory (ClientConnection A))
        : List (Datagram A) → Outcome (ClientConnection A) (Server A) → Type 0 where
      started : Steps m0 [] (done idle m0)
      receives :
          {past : List (Datagram A)} {s : Server A} {m : Memory (ClientConnection A)}
          (d : Datagram A)
          → Steps m0 past (done s m)
          → Steps m0 (d ∷ past) (receive d s m)
      begins :
          {past : List (Datagram A)} {s : Server A} {m : Memory (ClientConnection A)}
          (ts us : List Ptr) (args : Ptr)
          → s.waiting ≡ ts ++ args ∷ us
          → Steps m0 past (done s m)
          → Steps m0 past (begin_with ts us args s m)
