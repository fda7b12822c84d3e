-- ===== src/Incoming.antt =====
-- `incoming_handler` of Lab 7/node.c (lines 292 to 360): the loop that accepts connections and starts
-- a thread for each request. A thread reads its argument when it begins, later than the loop has
-- started it; the argument is shared with the loop, which goes on to write to it. `F` is the type of
-- file names.
pub mod Schedules
pub mod Race
pub mod Stopped
mod Tests
use innopolis_networks_s.Base.{
  ◌≡◌, Bool, true, false, Option, none, some, List, [], ◌∷◌, ◌++◌, if◌then◌else◌, ℤ, pos, ltℤ,
  ◌==ℤ◌,
}
use innopolis_networks_s.Socket.{Recv, failed, closed, got, received}

abbrev pub node_file_request : ℤ
node_file_request = pos 0

abbrev pub node_sync : ℤ
node_sync = pos 1

-- One round of the loop: what `accept` gives, and the two calls of `recv`.
pub record Arrival (F : Type 0) : Type 0 where
  pub talk_sock : ℤ
  pub request : Recv ℤ
  pub filename : Recv F

pub record FileRequest (F : Type 0) : Type 0 where
  pub sockfd : ℤ
  pub filename : F

-- A thread that has been started and has not begun.
pub data Task : Type 0 where
  sync_task file_task : Task

-- What a thread works on once it has read its argument: `lost` is a read of a variable that is no more.
pub data Job (F : Type 0) : Type 0 where
  sync_job : ℤ → Job F
  file_job : FileRequest F → Job F
  lost : Task → Job F

-- The variables of the loop, the threads that wait, and those that have begun. `handler_sock` is the
-- `int` behind that pointer, until it is freed; `file_request` is a variable of the block of the
-- `switch`, and is there from its declaration to the end of that block.
pub record Incoming (F : Type 0) : Type 0 where
  pub request_buf : ℤ
  pub handler_sock : Option ℤ
  pub filename : F
  pub file_request : Option (FileRequest F)
  pub waiting : List Task
  pub begun : List (Job F)

module _ {F : Type 0} where
  abbrev pub spawn : Task → Incoming F → Incoming F
  spawn t s = record s { waiting = s.waiting ++ t ∷ [] }

  -- `strcpy(file_request.filename, filename)` and the rest of that case
  abbrev pub request_file : ℤ → F → Incoming F → Incoming F
  request_file sock f s = record s {
    filename = f;
    file_request = some (record { sockfd = sock; filename = f });
    waiting = s.waiting ++ file_task ∷ [];
  }

  abbrev pub take_filename : Recv F → ℤ → Incoming F → Incoming F
  take_filename failed sock s = s
  take_filename closed sock s = request_file sock s.filename s
  take_filename (got f) sock s = request_file sock f s

  -- the `switch`
  unfoldable pub handle_request : ℤ → Arrival F → Incoming F → Incoming F
  handle_request request_buf a s =
      if request_buf ==ℤ node_sync
      then spawn sync_task s
      else if request_buf ==ℤ node_file_request
      then take_filename a.filename a.talk_sock s
      else s

  -- On the end of the stream `request_buf` keeps the last request.
  abbrev pub take_request : Recv ℤ → Arrival F → Incoming F → Incoming F
  take_request failed a s = s
  take_request closed a s =
      handle_request s.request_buf a (record s { handler_sock = some a.talk_sock })
  take_request (got k) a s =
      handle_request k a (record s { request_buf = k; handler_sock = some a.talk_sock })

  -- The end of the block of the `switch`.
  abbrev pub leave_block : Incoming F → Incoming F
  leave_block s = record s { file_request = none }

  -- One round of `while (running)`, up to the end of its `switch`; the block of the last one has been
  -- left by then.
  unfoldable pub incoming_handler : Arrival F → Incoming F → Incoming F
  incoming_handler a s =
      if ltℤ a.talk_sock (pos 0) then leave_block s else take_request a.request a (leave_block s)

  -- The end of the loop, and `free(handler_sock)`.
  abbrev pub end_loop : Incoming F → Incoming F
  end_loop s = record s { file_request = none; handler_sock = none }

  abbrev pub sync_argument : Option ℤ → Job F
  sync_argument none = lost sync_task
  sync_argument (some x) = sync_job x

  abbrev pub file_argument : Option (FileRequest F) → Job F
  file_argument none = lost file_task
  file_argument (some r) = file_job r

  -- What a thread reads at this moment: the first lines of `sync_handler` and `file_request_handler`.
  abbrev pub read_argument : Task → Incoming F → Job F
  read_argument sync_task s = sync_argument s.handler_sock
  read_argument file_task s = file_argument s.file_request

  abbrev pub begin_with : List Task → Task → Incoming F → Incoming F
  begin_with rest t s = record s { waiting = rest; begun = s.begun ++ read_argument t s ∷ [] }

  -- While the loop runs, it and the threads take their steps in any order; the list has the arrivals,
  -- the last first.
  pub data Steps (s : Incoming F) : List (Arrival F) → Incoming F → Type 0 where
    none_yet : Steps s [] s
    arrives :
        {past : List (Arrival F)} {t : Incoming F} (a : Arrival F)
        → Steps s past t
        → Steps s (a ∷ past) (incoming_handler a t)
    leaves :
        {past : List (Arrival F)} {t : Incoming F} → Steps s past t → Steps s past (leave_block t)
    begins :
        {past : List (Arrival F)} {t : Incoming F} (ts us : List Task) (k : Task)
        → t.waiting ≡ ts ++ k ∷ us
        → Steps s past t
        → Steps s past (begin_with (ts ++ us) k t)

  -- The threads that wait when the loop ends, in the state `s`, begin after it.
  pub data Late (s : Incoming F) : Incoming F → Type 0 where
    stops : Late s (end_loop s)
    begins_late :
        {t : Incoming F} (ts us : List Task) (k : Task)
        → t.waiting ≡ ts ++ k ∷ us
        → Late s t
        → Late s (begin_with (ts ++ us) k t)
