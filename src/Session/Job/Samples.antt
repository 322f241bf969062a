-- ===== src/Session/Job/Samples.antt =====
-- An upload that is canceled while it runs.
use gooners.Base.{◌≡◌, refl, ◌≢◌, ◌↔◌, true, none, some, List, [], ◌∷◌, nat_eq, list_eq}
use gooners.Session.Job.{
  new_transfer_job, transfer_canceled, session_closed, failure, abort_cause, finish, status_of,
  transfer_running, transfer_completed,
}
use gooners.Session.Job.Outcome.{
  Call, abort, close_with, total, progress, step, run, finish-first_cause, finish-stays,
}
use gooners.Session.Job.Closers.{listed, to_close, to_close-finished}

abbrev later : List Call
later = abort session_closed ∷ progress 5 ∷ []

abbrev calls : List Call
calls = total 9 ∷ close_with 3 ∷ abort transfer_canceled ∷ abort session_closed ∷ []

finish-first_cause_example :
    ((finish 8
        (some (failure 1))
        (run later (abort_cause transfer_canceled new_transfer_job).0)).err
      ≡ some transfer_canceled)
    × ((finish 8
          (some (failure 1))
          (run later (abort_cause transfer_canceled new_transfer_job).0)).status
        ≡ status_of (some transfer_canceled))
unfolding new_transfer_job
finish-first_cause_example =
    finish-first_cause 8 transfer_canceled (failure 1) later new_transfer_job refl refl refl

finish-stays_example :
    ((run later (finish 8 none new_transfer_job)).done ≡ true)
    × ((run later (finish 8 none new_transfer_job)).status
        ≡ (finish 8 none new_transfer_job).status)
    × ((run later (finish 8 none new_transfer_job)).status ≢ transfer_running)
    × (((run later (finish 8 none new_transfer_job)).status ≡ transfer_completed)
        ↔ ((run later (finish 8 none new_transfer_job)).err ≡ none))
unfolding new_transfer_job
finish-stays_example = finish-stays 8 none later new_transfer_job refl

to_close-finished_example :
    (to_close calls new_transfer_job ≡ 3 ∷ [])
    × (listed (run calls new_transfer_job).closer ≡ [])
    × (to_close later (finish 8 (some (failure 1)) (run calls new_transfer_job)) ≡ [])
    × ((run later (finish 8 (some (failure 1)) (run calls new_transfer_job))).closer ≡ none)
unfolding new_transfer_job step
to_close-finished_example = to_close-finished calls 3 8 (some (failure 1)) later refl refl

-- An abort after the transfer has finished is given no client.
abort_after_finish :
    to_close
      (abort transfer_canceled ∷ [])
      (finish 8 none (run (close_with 3 ∷ []) new_transfer_job))
    ≡ []
unfolding new_transfer_job step finish
abort_after_finish = refl
