-- ===== src/Pipe/Client.antt =====
-- `ClientJob` of Lab 1/ClientServerStack/ClientServerStack.c (lines 268 to 350). What the user types
-- and what the pipe does comes in as data; the comparison of words, `lstrcmpiA`, is a parameter.
pub mod Requests
pub mod Session
use Prim.Native.String.{String}
use innopolis_networks_s.Base.{
  ℕ, Bool, true, false, not, Option, none, some, List, [], ◌∷◌, ◌++◌, ◌==◌, if◌then◌else◌, ℤ, pos,
}
use innopolis_networks_s.Pipe.Codes.{
  server_help, stack_peek_code, stack_pop_code, stack_push_code, stack_new_code, stack_size_code,
  stack_is_empty_code, stack_display_code, server_exit, Request,
}

-- What `scanf_s("%d", …)` gives: a number, 0 for text that is no number, EOF.
pub data Scan : Type 0 where
  matched : ℤ → Scan
  no_match : Scan
  end_of_file : Scan

-- One round: the word typed, the number typed after it, whether `WriteFile` works, and the byte that
-- `ReadFile` gives, if it works.
pub record Turn : Type 0 where
  pub word : String
  pub number : Scan
  pub write_ok : Bool
  pub reply : Option ℕ

pub data Notice : Type 0 where
  no_pipe no_server connected not_integer unknown_command write_failed no_respond wrong_respond :
      Notice

-- `buffer` is `requestBuffer`, `sent` what was written to the pipe, `handle_open` the pipe's handle.
pub record Client : Type 0 where
  pub buffer : Request
  pub sent : List Request
  pub notices : List Notice
  pub handle_open : Bool
  pub running : Bool

-- The commands; `plain c` are those that only set the code.
pub data Command : Type 0 where
  plain : ℤ → Command
  push exit unknown : Command

abbrev pub tell : Client → Notice → Client
tell c n = record c { notices = c.notices ++ n ∷ [] }

abbrev pub leave : Client → Client
leave c = record c { handle_open = false; running = false }

abbrev pub check_reply : Option ℕ → Client → Client
check_reply none c = leave (tell c no_respond)
check_reply (some b) c = if b == 1 then c else leave (tell c wrong_respond)

-- `WriteFile`, then `ReadFile`. On a failed write the client returns with the handle still open.
unfoldable pub exchange : Turn → Client → Client
exchange t c =
    if t.write_ok
    then check_reply t.reply (record c { sent = c.sent ++ c.buffer ∷ [] })
    else record (tell c write_failed) { running = false }

abbrev pub set_code : ℤ → Client → Client
set_code k c = record c { buffer = record { code = k; arg = c.buffer.arg } }

-- The number after PUSH; at the end of the input the buffer keeps its old number.
abbrev pub push_number : Scan → Turn → Client → Client
push_number (matched v) t c =
    exchange t (record c { buffer = record { code = c.buffer.code; arg = v } })
push_number no_match t c = tell c not_integer
push_number end_of_file t c = exchange t c

abbrev pub obey : Command → Turn → Client → Client
obey (plain k) t c = exchange t (set_code k c)
obey push t c = push_number t.number t (set_code stack_push_code c)
obey exit t c = leave (set_code server_exit c)
obey unknown t c = tell c unknown_command

abbrev pub initial : Bool → Bool → List Notice → Client
initial handle run out = record {
  buffer = record { code = pos 0; arg = pos 0 };
  sent = [];
  notices = out;
  handle_open = handle;
  running = run;
}

module _ (lstrcmpi_eq : String → String → Bool) where
  -- The chain of `lstrcmpiA(inputBuffer, …) == 0`.
  unfoldable pub command_of : String → Command
  command_of w =
      if lstrcmpi_eq w "PEEK"
      then plain stack_peek_code
      else if lstrcmpi_eq w "POP"
      then plain stack_pop_code
      else if lstrcmpi_eq w "PUSH"
      then push
      else if lstrcmpi_eq w "NEW"
      then plain stack_new_code
      else if lstrcmpi_eq w "SIZE"
      then plain stack_size_code
      else if lstrcmpi_eq w "ISEMPTY"
      then plain stack_is_empty_code
      else if lstrcmpi_eq w "DISPLAY"
      then plain stack_display_code
      else if lstrcmpi_eq w "HELP"
      then plain server_help
      else if lstrcmpi_eq w "EXIT"
      then exit
      else unknown

  -- One round of `while (1)`; after a `return` nothing happens.
  unfoldable pub client_round : Turn → Client → Client
  client_round t c = if c.running then obey (command_of t.word) t c else c

  unfoldable pub client_rounds : List Turn → Client → Client
  client_rounds [] c = c
  client_rounds (t ∷ ts) c = client_rounds ts (client_round t c)

  -- `ClientJob`: `opened` is whether `CreateFile` works, `greeted` whether the first byte is written.
  unfoldable pub client_job : (opened greeted : Bool) → List Turn → Client
  client_job opened greeted ts =
      if not opened
      then initial false false (no_pipe ∷ [])
      else if not greeted
      then initial false false (no_server ∷ [])
      else client_rounds ts (initial true true (connected ∷ []))
