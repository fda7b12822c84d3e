-- ===== src/Incoming/Schedules.antt =====
-- Which connections the threads of `incoming_handler` work on, in every order of the steps.
use innopolis_networks_s.Base.{
  sym, subst, ◌≡◌, refl, Bool, true, false, not, ◌&&◌, ◌||◌, Option, none, some, List, [], ◌∷◌,
  ◌++◌, ℤ, pos, ltℤ, ◌==ℤ◌, arith, Bool-cases, inl, inr, ==ℤ-refl,
}
use innopolis_networks_s.Socket.{Recv, failed, closed, got}
use innopolis_networks_s.Incoming.{
  Arrival, FileRequest, Task, sync_task, file_task, Job, sync_job, file_job, lost, Incoming,
  node_sync, node_file_request, take_filename, handle_request, take_request, leave_block,
  incoming_handler, read_argument, begin_with, Steps, none_yet, arrives, leaves, begins,
}

module _ {F : Type 0} where
  -- The socket is that of a connection that was accepted.
  abbrev pub accepted : List (Arrival F) → ℤ → Bool
  accepted [] x = false
  accepted (a ∷ past) x = (not (ltℤ a.talk_sock (pos 0)) && a.talk_sock ==ℤ x) || accepted past x

  -- The thread works on an accepted connection, or is one for a file whose argument is no more.
  abbrev pub IsAccepted : List (Arrival F) → Job F → Type 0
  IsAccepted past (sync_job x) = accepted past x ≡ true
  IsAccepted past (file_job r) = accepted past r.sockfd ≡ true
  IsAccepted past (lost sync_task) = ⊥
  IsAccepted past (lost file_task) = Unit

  abbrev pub AllAccepted : List (Arrival F) → List (Job F) → Type 0
  AllAccepted past [] = Unit
  AllAccepted past (j ∷ js) = IsAccepted past j × AllAccepted past js

  -- The variables hold accepted sockets: `handler_sock` if a thread for a sync waits, and
  -- `file_request` wherever it is there.
  abbrev IsSyncReady : List (Arrival F) → Option ℤ → Type 0
  IsSyncReady past none = ⊥
  IsSyncReady past (some x) = accepted past x ≡ true

  abbrev IsFileReady : List (Arrival F) → Option (FileRequest F) → Type 0
  IsFileReady past none = Unit
  IsFileReady past (some r) = accepted past r.sockfd ≡ true

  abbrev TasksReady : List (Arrival F) → Option ℤ → List Task → Type 0
  TasksReady past x [] = Unit
  TasksReady past x (sync_task ∷ ts) = IsSyncReady past x × TasksReady past x ts
  TasksReady past x (file_task ∷ ts) = TasksReady past x ts

  accepted-later :
      (a : Arrival F) (past : List (Arrival F)) (x : ℤ)
      → accepted past x ≡ true
      → accepted (a ∷ past) x ≡ true
  accepted-later a past x h = ground (arith, h)

  IsAccepted-later :
      (a : Arrival F) (past : List (Arrival F)) (j : Job F)
      → IsAccepted past j
      → IsAccepted (a ∷ past) j
  IsAccepted-later a past (sync_job x) h = accepted-later a past x h
  IsAccepted-later a past (file_job r) h = accepted-later a past r.sockfd h
  IsAccepted-later a past (lost sync_task) h = h
  IsAccepted-later a past (lost file_task) h = tt

  AllAccepted-later :
      (a : Arrival F) (past : List (Arrival F)) (js : List (Job F))
      → AllAccepted past js
      → AllAccepted (a ∷ past) js
  AllAccepted-later a past [] h = tt
  AllAccepted-later a past (j ∷ js) h =
      (IsAccepted-later a past j h.0, AllAccepted-later a past js h.1)

  AllAccepted-snoc :
      (past : List (Arrival F)) (js : List (Job F)) (j : Job F)
      → AllAccepted past js
      → IsAccepted past j
      → AllAccepted past (js ++ j ∷ [])
  AllAccepted-snoc past [] j h e = (e, tt)
  AllAccepted-snoc past (i ∷ js) j h e = (h.0, AllAccepted-snoc past js j h.1 e)

  IsSyncReady-later :
      (a : Arrival F) (past : List (Arrival F)) (x : Option ℤ)
      → IsSyncReady past x
      → IsSyncReady (a ∷ past) x
  IsSyncReady-later a past none h = h
  IsSyncReady-later a past (some x) h = accepted-later a past x h

  TasksReady-later :
      (a : Arrival F) (past : List (Arrival F)) (x : Option ℤ) (ts : List Task)
      → TasksReady past x ts
      → TasksReady (a ∷ past) x ts
  TasksReady-later a past x [] h = tt
  TasksReady-later a past x (sync_task ∷ ts) h =
      (IsSyncReady-later a past x h.0, TasksReady-later a past x ts h.1)
  TasksReady-later a past x (file_task ∷ ts) h = TasksReady-later a past x ts h

  -- Once `handler_sock` holds an accepted socket, every thread is ready.
  TasksReady-all :
      (past : List (Arrival F)) (x : Option ℤ) (ts : List Task)
      → IsSyncReady past x
      → TasksReady past x ts
  TasksReady-all past x [] e = tt
  TasksReady-all past x (sync_task ∷ ts) e = (e, TasksReady-all past x ts e)
  TasksReady-all past x (file_task ∷ ts) e = TasksReady-all past x ts e

  -- one thread less
  TasksReady-begun :
      (past : List (Arrival F)) (x : Option ℤ) (ts us : List Task) (k : Task)
      → TasksReady past x (ts ++ k ∷ us)
      → TasksReady past x (k ∷ []) × TasksReady past x (ts ++ us)
  TasksReady-begun past x [] us sync_task h = ((h.0, tt), h.1)
  TasksReady-begun past x [] us file_task h = (tt, h)
  TasksReady-begun past x (sync_task ∷ ts) us k h =
      let (first, others) = TasksReady-begun past x ts us k h.1 in (first, (h.0, others))
  TasksReady-begun past x (file_task ∷ ts) us k h = TasksReady-begun past x ts us k h

  abbrev Sound : List (Arrival F) → Incoming F → Type 0
  Sound past s =
      AllAccepted past s.begun
      × IsFileReady past s.file_request
      × TasksReady past s.handler_sock s.waiting

  accepts :
      (a : Arrival F) (past : List (Arrival F))
      → ltℤ a.talk_sock (pos 0) ≡ false
      → accepted (a ∷ past) a.talk_sock ≡ true
  accepts a past h = ground (arith, ==ℤ-refl a.talk_sock)

  switch_lem :
      (a : Arrival F) (past : List (Arrival F)) (k : ℤ) (s : Incoming F)
      → s.handler_sock ≡ some a.talk_sock
      → accepted (a ∷ past) a.talk_sock ≡ true
      → AllAccepted (a ∷ past) s.begun
      → IsFileReady (a ∷ past) s.file_request
      → Sound (a ∷ past) (handle_request k a s)
  unfolding handle_request
  switch_lem a past k s e now begun file = elim (Bool-cases (k ==ℤ node_sync)) [
    | inl y ↦ rw y (begun, file, ready (s.waiting ++ sync_task ∷ []))
    | inr n ↦ elim (Bool-cases (k ==ℤ node_file_request)) [
      | inr n' ↦ rw (n, n') (begun, file, ready s.waiting)
      | inl y ↦ rw (n, y) (named a.filename)
    ]
  ]
    where
      ready : (ts : List Task) → TasksReady (a ∷ past) s.handler_sock ts
      ready ts =
          TasksReady-all (a ∷ past) s.handler_sock ts (subst (IsSyncReady (a ∷ past)) (sym e) now)

      named : (r : Recv F) → Sound (a ∷ past) (take_filename r a.talk_sock s)
      named failed = (begun, file, ready s.waiting)
      named closed = (begun, now, ready (s.waiting ++ file_task ∷ []))
      named (got f) = (begun, now, ready (s.waiting ++ file_task ∷ []))

  incoming_lem :
      (a : Arrival F) (past : List (Arrival F)) (s : Incoming F)
      → Sound past s
      → Sound (a ∷ past) (incoming_handler a s)
  unfolding incoming_handler
  incoming_lem a past s h = elim (Bool-cases (ltℤ a.talk_sock (pos 0))) [
    | inl e ↦ rw e later
    | inr e ↦ rw e (request a.request (accepts a past e))
  ]
    where
      later : Sound (a ∷ past) (leave_block s)
      later = (
        AllAccepted-later a past s.begun h.0,
        tt,
        TasksReady-later a past s.handler_sock s.waiting h.2,
      )

      request :
          (r : Recv ℤ)
          → accepted (a ∷ past) a.talk_sock ≡ true
          → Sound (a ∷ past) (take_request r a (leave_block s))
      request failed now = later
      request closed now = switch_lem a past s.request_buf _ refl now later.0 tt
      request (got k) now = switch_lem a past k _ refl now later.0 tt

  argument_lem :
      (past : List (Arrival F)) (k : Task) (t : Incoming F)
      → IsFileReady past t.file_request
      → TasksReady past t.handler_sock (k ∷ [])
      → IsAccepted past (read_argument k t)
  argument_lem past sync_task t file ready = sync t.handler_sock ready.0
    where
      sync :
          (x : Option ℤ)
          → IsSyncReady past x
          → IsAccepted past (read_argument sync_task (record t { handler_sock = x }))
      sync none h = h
      sync (some x) h = h
  argument_lem past file_task t file ready = name t.file_request file
    where
      name :
          (r : Option (FileRequest F))
          → IsFileReady past r
          → IsAccepted past (read_argument file_task (record t { file_request = r }))
      name none h = tt
      name (some r) h = h

  begin_lem :
      (past : List (Arrival F)) (ts us : List Task) (k : Task) (t : Incoming F)
      → t.waiting ≡ ts ++ k ∷ us
      → Sound past t
      → Sound past (begin_with (ts ++ us) k t)
  begin_lem past ts us k t e h =
      let (first, others) =
        TasksReady-begun past t.handler_sock ts us k
          (subst (TasksReady past t.handler_sock) e h.2) in
      (
        AllAccepted-snoc past t.begun (read_argument k t) h.0 (argument_lem past k t h.1 first),
        h.1,
        others,
      )

  Steps-Sound :
      {s t : Incoming F} {past : List (Arrival F)} → Sound [] s → Steps s past t → Sound past t
  Steps-Sound h none_yet = h
  Steps-Sound h (arrives {past} {t} a run) = incoming_lem a past t (Steps-Sound h run)
  Steps-Sound h (leaves {past} {t} run) = let k = Steps-Sound h run in (k.0, tt, k.2)
  Steps-Sound h (begins {past} {t} ts us k e run) = begin_lem past ts us k t e (Steps-Sound h run)

  -- In every order of the steps of the loop and its threads while the loop runs, from a state outside of
  -- the block of the `switch` in which no thread waits or has begun: each thread works on the socket of a
  -- connection that was accepted before, but for those for a file that begin when their argument,
  -- `file_request`, is no more; no thread for a sync has lost its argument.
  pub Steps-AllAccepted :
      (s t : Incoming F) (past : List (Arrival F))
      → s.waiting ≡ []
      → s.begun ≡ []
      → s.file_request ≡ none
      → Steps s past t
      → AllAccepted past t.begun
  Steps-AllAccepted s t past idle none_begun outside run =
      (Steps-Sound
        (
          subst (AllAccepted []) (sym none_begun) tt,
          subst (IsFileReady []) (sym outside) tt,
          subst (TasksReady [] s.handler_sock) (sym idle) tt,
        )
        run).0
