-- ===== src/Incoming/Race.antt =====
-- Which thread answers which connection in `incoming_handler`: if threads begin at once, and if not.
use innopolis_networks_s.Base.{
  ◌≡◌, refl, ap, sym, false, none, some, List, [], ◌∷◌, ◌++◌, if◌then◌else◌, ℤ, pos, ltℤ, ◌==ℤ◌,
  Bool-cases, inl, inr,
}
use mathlib.Core.List.{append-nil}
use innopolis_networks_s.Socket.{got}
use innopolis_networks_s.Incoming.{
  Arrival, Task, sync_task, Job, sync_job, file_job, Incoming, node_sync, node_file_request,
  handle_request, incoming_handler, begin_with, Steps, none_yet, arrives, begins,
}

module _ {F : Type 0} where
  -- all threads that wait begin, in their order
  abbrev pub begin_all : List Task → Incoming F → Incoming F
  begin_all [] s = s
  begin_all (k ∷ ks) s = begin_all ks (begin_with ks k s)

  -- what a request with its file name asks for
  abbrev pub job_of : ℤ → ℤ → F → List (Job F)
  job_of sock k f =
      if k ==ℤ node_sync
      then sync_job sock ∷ []
      else if k ==ℤ node_file_request
      then file_job (record { sockfd = sock; filename = f }) ∷ []
      else []

  abbrev pub asks : ℤ → ℤ → F → Arrival F
  asks sock k f = record { talk_sock = sock; request = got k; filename = got f }

  -- If no thread waits when a request comes and the thread for it begins at once, it works on the
  -- connection of that request and on the file that it names, and a request of another kind starts no
  -- thread.
  pub prompt_lem :
      (s : Incoming F) (sock k : ℤ) (f : F)
      → s.waiting ≡ []
      → ltℤ sock (pos 0) ≡ false
      → (begin_all
          (incoming_handler (asks sock k f) s).waiting
          (incoming_handler (asks sock k f) s)).begun
        ≡ s.begun ++ job_of sock k f
  unfolding incoming_handler handle_request
  prompt_lem s sock k f idle valid = elim (Bool-cases (k ==ℤ node_sync)) [
    | inl y ↦ rw (valid, y, idle) refl
    | inr n ↦ elim (Bool-cases (k ==ℤ node_file_request)) [
      | inl y ↦ rw (valid, n, y, idle) refl
      | inr n' ↦ rw (valid, n, n', idle) (sym (append-nil s.begun))
    ]
  ]

  abbrev pub syncs : ℤ → F → Arrival F
  syncs sock f = asks sock node_sync f

  one_sync :
      (s : Incoming F) (x : ℤ) (f : F)
      → ltℤ x (pos 0) ≡ false
      → incoming_handler (syncs x f) s ≡ record s {
        request_buf = node_sync;
        handler_sock = some x;
        file_request = none;
        waiting = s.waiting ++ sync_task ∷ [];
      }
  unfolding incoming_handler handle_request
  one_sync s x f valid = rw valid refl

  two_syncs :
      (s : Incoming F) (x y : ℤ) (f : F)
      → s.waiting ≡ []
      → ltℤ x (pos 0) ≡ false
      → ltℤ y (pos 0) ≡ false
      → ((incoming_handler (syncs y f) (incoming_handler (syncs x f) s)).waiting
          ≡ sync_task ∷ sync_task ∷ [])
        × ((incoming_handler (syncs y f) (incoming_handler (syncs x f) s)).handler_sock ≡ some y)
        × ((incoming_handler (syncs y f) (incoming_handler (syncs x f) s)).begun ≡ s.begun)
  two_syncs s x y f idle valid_x valid_y =
      rw
        (
          one_sync s x f valid_x,
          one_sync
              (record s {
                request_buf = node_sync;
                handler_sock = some x;
                file_request = none;
                waiting = s.waiting ++ sync_task ∷ [];
              })
              y f valid_y,
        )
        (ap (λ r. (r ++ sync_task ∷ []) ++ sync_task ∷ []) idle, refl, refl)

  -- Two nodes ask for a sync, and both threads begin after the second request has come: there is such
  -- a run, and in it both threads work on the second connection, none on the first.
  pub race_lem :
      (s : Incoming F) (x y : ℤ) (f : F)
      → s.waiting ≡ []
      → ltℤ x (pos 0) ≡ false
      → ltℤ y (pos 0) ≡ false
      → (t : Incoming F) × Steps s (syncs y f ∷ syncs x f ∷ []) t
        × (t.begun ≡ (s.begun ++ sync_job y ∷ []) ++ sync_job y ∷ [])
  race_lem s x y f idle valid_x valid_y =
      let two = incoming_handler (syncs y f) (incoming_handler (syncs x f) s) in
      let (wait, sock, begun) = two_syncs s x y f idle valid_x valid_y in
      let one = begin_with (sync_task ∷ []) sync_task two in
      (
        begin_with [] sync_task one,
        begins [] [] sync_task refl (
            begins [] (sync_task ∷ []) sync_task wait
              (arrives (syncs y f) (arrives (syncs x f) none_yet))),
        rw (sock, begun) refl,
      )
