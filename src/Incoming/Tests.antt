-- ===== src/Incoming/Tests.antt =====
-- Two nodes that ask for a sync.
use innopolis_networks_s.Base.{ℕ, ◌≡◌, refl, none, some, [], ◌∷◌, ◌++◌, pos, negsuc}
use innopolis_networks_s.Incoming.{
  Incoming, sync_job, sync_task, begin_with, begins, incoming_handler, handle_request, Steps,
  none_yet, arrives,
}
use innopolis_networks_s.Incoming.Schedules.{AllAccepted, Steps-AllAccepted}
use innopolis_networks_s.Incoming.Race.{syncs, race_lem}

abbrev idle : Incoming ℕ
idle = record {
  request_buf = negsuc 0;
  handler_sock = some (pos 0);
  filename = 0;
  file_request = none;
  waiting = [];
  begun = [];
}

race_lem_example :
    (t : Incoming ℕ) × Steps idle (syncs (pos 6) 0 ∷ syncs (pos 5) 0 ∷ []) t
    × (t.begun ≡ ([] ++ sync_job (pos 6) ∷ []) ++ sync_job (pos 6) ∷ [])
race_lem_example = race_lem idle (pos 5) (pos 6) 0 refl refl refl

abbrev both_came : Incoming ℕ
both_came = incoming_handler (syncs (pos 6) 0) (incoming_handler (syncs (pos 5) 0) idle)

both_came-Steps :
    Steps idle
      (syncs (pos 6) 0 ∷ syncs (pos 5) 0 ∷ [])
      (begin_with (sync_task ∷ []) sync_task both_came)
unfolding incoming_handler handle_request
both_came-Steps =
    begins [] (sync_task ∷ []) sync_task refl
      (arrives (syncs (pos 6) 0) (arrives (syncs (pos 5) 0) none_yet))

Steps-AllAccepted_example :
    AllAccepted
      (syncs (pos 6) 0 ∷ syncs (pos 5) 0 ∷ [])
      (begin_with (sync_task ∷ []) sync_task both_came).begun
Steps-AllAccepted_example =
    Steps-AllAccepted idle (begin_with (sync_task ∷ []) sync_task both_came)
      (syncs (pos 6) 0 ∷ syncs (pos 5) 0 ∷ []) refl refl refl both_came-Steps
