-- ===== src/Pipe/Server.antt =====
-- `ServerJob` of Lab 1/ClientServerStack/ClientServerStack.c (lines 147 to 266).
pub mod Spec
pub mod Dispatch
pub mod Refines
pub mod Start
pub mod Run
use innopolis_networks_s.Base.{
  ℕ, ◌<◌, Bool, true, false, not, ◌||◌, Option, none, some, List, [], ◌∷◌, ◌++◌, ◌==◌, ltb,
  if◌then◌else◌, ℤ, pos, negsuc, ◌==ℤ◌,
}
use innopolis_networks_s.Memory.{Ptr, null, Cmd, Allocator, pure, ◌>>=◌, ◌>>◌, release, alloc}
use innopolis_networks_s.Stack.{
  Obj, stack_block, Stack, empty_stack, push_failed, stack_push_int, stack_clear, stack_peek_int,
  stack_pop_int, display_stack,
}
use innopolis_networks_s.Pipe.Codes.{
  server_help, server_exit, stack_peek_code, stack_pop_code, stack_push_code, stack_new_code,
  stack_size_code, stack_is_empty_code, stack_display_code, Request,
}

-- What the server prints, and `responded` for each answer that it writes to the pipe.
pub data Message : Type 0 where
  pipe_failed connect_failed waiting client_failed no_memory ready : Message
  peeked popped pushed : ℤ → Message
  not_pushed created : Message
  size_is : ℕ → Message
  is_empty : Bool → Message
  displayed : List ℤ → Message
  help stopped responded respond_failed read_failed : Message

-- `exited n` is the end of the thread by `ExitThread(n)`.
pub data Status : Type 0 where
  serving : Status
  exited : ℤ → Status

-- `block` is where the stack structure is allocated.
pub record Server : Type 0 where
  pub stack : Stack
  pub block : Ptr
  pub log : List Message
  pub status : Status

-- What the pipe does in one round: `ReadFile` gives a request or fails, and `WriteFile` may fail.
pub record Round : Type 0 where
  pub read : Option Request
  pub write_ok : Bool

-- What the pipe does before the rounds: `CreateNamedPipe`, `ConnectNamedPipe`, the first byte read.
pub record Setup : Type 0 where
  pub created_ok : Bool
  pub connected_ok : Bool
  pub hello : Option ℕ

abbrev pub say : Server → List Message → Server
say srv out = record srv { log = srv.log ++ out }

-- `ExitThread(-1)` before there is a stack.
abbrev pub gone : List Message → Server
gone out = record { stack = empty_stack; block = null; log = out; status = exited (negsuc 0) }

-- The handshake: the client's first byte has to be 1.
abbrev pub is_hello : Option ℕ → Bool
is_hello none = false
is_hello (some b) = b == 1

-- `CloseHandle`, `stackClear`, `HeapFree`, `ExitThread`.
unfoldable pub shut_down : Server → Message → ℤ → Cmd Obj Server
shut_down srv why n = do
  s ← stack_clear srv.stack
  release srv.block
  pure (record srv { stack = s; log = srv.log ++ why ∷ []; status = exited n })

module _ (al : Allocator Obj) where
  -- The `switch`, less `SERVEREXIT`: the new stack and what is printed. An unknown code does nothing.
  unfoldable pub dispatch : Request → Stack → Cmd Obj (Stack × List Message)
  dispatch q s =
      if q.code ==ℤ stack_peek_code
      then (do v ← stack_peek_int s; pure (s, peeked v ∷ []))
      else if q.code ==ℤ stack_pop_code
      then (do (s', v) ← stack_pop_int s; pure (s', popped v ∷ []))
      else if q.code ==ℤ stack_push_code
      then (do
        (s', r) ← stack_push_int al s q.arg
        if r ==ℤ push_failed
            then pure (s', not_pushed ∷ [])
            else (do v ← stack_peek_int s'; pure (s', pushed v ∷ [])))
      else if q.code ==ℤ stack_new_code
      then (do stack_clear s; pure (empty_stack, created ∷ []))
      else if q.code ==ℤ stack_size_code
      then pure (s, size_is s.size ∷ [])
      else if q.code ==ℤ stack_is_empty_code
      then pure (s, is_empty (not (ltb 0 s.size)) ∷ [])
      else if q.code ==ℤ stack_display_code
      then (do vs ← display_stack s; pure (s, displayed vs ∷ []))
      else if q.code ==ℤ server_help
      then pure (s, help ∷ [])
      else pure (s, [])

  unfoldable pub respond : Bool → Server → Cmd Obj Server
  respond write_ok srv =
      if write_ok then pure (say srv (responded ∷ [])) else shut_down srv respond_failed (negsuc 0)

  unfoldable pub answer : Request → Bool → Server → Cmd Obj Server
  answer q write_ok srv = if q.code ==ℤ server_exit then shut_down srv stopped (pos 0) else do
    (s', out) ← dispatch q srv.stack
    respond write_ok (record srv { stack = s'; log = srv.log ++ out })

  abbrev pub read_round : Option Request → Bool → Server → Cmd Obj Server
  read_round none write_ok srv = shut_down srv read_failed (negsuc 0)
  read_round (some q) write_ok srv = answer q write_ok srv

  -- One round of `while (TRUE)`; a thread that has exited takes no part in further rounds.
  abbrev pub round_at : Status → Round → Server → Cmd Obj Server
  round_at serving r srv = read_round r.read r.write_ok srv
  round_at (exited n) r srv = pure srv

  unfoldable pub serve_round : Round → Server → Cmd Obj Server
  serve_round r srv = round_at srv.status r srv

  unfoldable pub serve : List Round → Server → Cmd Obj Server
  serve [] srv = pure srv
  serve (r ∷ rs) srv = do srv' ← serve_round r srv; serve rs srv'

  -- The code before the loop.
  abbrev pub open_stack : Cmd Obj Server
  open_stack = do
    block ← alloc al stack_block
    pure (
        if block == null then gone (waiting ∷ no_memory ∷ []) else record {
          stack = empty_stack;
          block = block;
          log = waiting ∷ ready ∷ [];
          status = serving;
        })

  unfoldable pub start : Setup → Cmd Obj Server
  start u =
      if not u.created_ok
      then pure (gone (pipe_failed ∷ []))
      else if not u.connected_ok
      then pure (gone (connect_failed ∷ []))
      else if not (is_hello u.hello)
      then pure (gone (waiting ∷ client_failed ∷ []))
      else open_stack

  unfoldable pub server_job : Setup → List Round → Cmd Obj Server
  server_job u rs = do srv ← start u; serve rs srv
