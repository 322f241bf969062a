-- ===== src/Session/Job/Outcome.antt =====
-- internal/session/job.go: the calls on a job in any order, and how its transfer ends.
use gooners.Base.{
  ℕ, ◌≡◌, refl, ◌∙◌, ◌≢◌, ◌↔◌, true, false, Option, none, some, List, [], ◌∷◌, arith, if◌then◌else◌,
  nat_eq, list_eq,
}
use gooners.Session.Job.{
  Error, transfer_running, transfer_completed, TransferJob, is_context_canceled, cancel, set_result,
  set_total, add, set_closer, abort_cause, status_of, finish,
}

-- A call on the job while its transfer runs; parent_done is the end of the context around it.
pub data Call : Type 0 where
  abort : Error → Call
  close_with : ℕ → Call
  total : ℕ → Call
  progress : ℕ → Call
  stored : ℕ → Call
  parent_done : Error → Call

-- The job after a call, and the closer that the caller has to close.
unfoldable pub step : Call → TransferJob → TransferJob × Option ℕ
unfolding abort_cause set_closer set_total add set_result cancel
step (abort e) j = abort_cause e j
step (close_with c) j =
    let (j', accepted) = set_closer c j in (j', if accepted then none else some c)
step (total n) j = (set_total n j, none)
step (progress n) j = (add n j, none)
step (stored b) j = (set_result b j, none)
step (parent_done e) j = (cancel (some e) j, none)

abbrev pub run : List Call → TransferJob → TransferJob
run [] j = j
run (c ∷ cs) j = run cs (step c j).0

-- What no call but finish changes.
pub record Keeps (j k : TransferJob) : Type 0 where
  pub same_status : k.status ≡ j.status
  pub same_err : k.err ≡ j.err
  pub same_done : k.done ≡ j.done
  pub still_aborted : j.aborted ≡ true → k.aborted ≡ true
  pub same_cause : (e : Error) → j.cause ≡ some e → k.cause ≡ some e

step-Keeps : (c : Call) (j : TransferJob) → Keeps j (step c j).0
unfolding step
step-Keeps c j = record {
  same_status = ground arith;
  same_err = ground arith;
  same_done = ground arith;
  still_aborted = λ h. ground arith;
  same_cause = λ e h. ground arith;
}

pub run-Keeps : (cs : List Call) (j : TransferJob) → Keeps j (run cs j)
run-Keeps [] j = record {
  same_status = refl;
  same_err = refl;
  same_done = refl;
  still_aborted = λ h. h;
  same_cause = λ e h. h;
}
run-Keeps (c ∷ cs) j =
    let a = step-Keeps c j in
    let b = run-Keeps cs (step c j).0 in
    record {
      same_status = b.same_status ∙ a.same_status;
      same_err = b.same_err ∙ a.same_err;
      same_done = b.same_done ∙ a.same_done;
      still_aborted = λ h. b.still_aborted (a.still_aborted h);
      same_cause = λ e h. b.same_cause e (a.same_cause e h);
    }

abort-cause :
    (c : Error) (j : TransferJob)
    → j.aborted ≡ false
    → j.cause ≡ none
    → (abort_cause c j).0.cause ≡ some c
unfolding abort_cause
abort-cause c j a n = ground arith

finish-err :
    (now : ℕ) (e c : Error) (j : TransferJob)
    → j.cause ≡ some c
    → is_context_canceled c ≡ false
    → ((finish now (some e) j).err ≡ some c) × ((finish now (some e) j).status ≡ status_of (some c))
unfolding finish
finish-err now e c j h n = ground arith

-- The first cause wins: when a job that nothing has canceled is aborted for a cause other than
-- context.Canceled, and after any further calls, with other aborts and the end of the parent context
-- among them, its transfer fails, then the job records the first cause and has its status.
pub finish-first_cause :
    (now : ℕ) (c e : Error) (cs : List Call) (j : TransferJob)
    → j.aborted ≡ false
    → j.cause ≡ none
    → is_context_canceled c ≡ false
    → ((finish now (some e) (run cs (abort_cause c j).0)).err ≡ some c)
      × ((finish now (some e) (run cs (abort_cause c j).0)).status ≡ status_of (some c))
finish-first_cause now c e cs j a n h =
    finish-err now e c (run cs (abort_cause c j).0)
      ((run-Keeps cs (abort_cause c j).0).same_cause c (abort-cause c j a n)) h

finish-done : (now : ℕ) (e : Option Error) (j : TransferJob) → (finish now e j).done ≡ true
unfolding finish
finish-done now e j = ground arith

finish-status :
    (now : ℕ) (e : Option Error) (j : TransferJob)
    → j.err ≡ none
    → (finish now e j).status ≡ status_of (finish now e j).err
unfolding finish
finish-status now e j h = ground arith

status_of-completed : (e : Option Error) → (status_of e ≡ transfer_completed) ↔ (e ≡ none)
unfolding status_of
status_of-completed e = ground arith

status_of-running : (e : Option Error) → status_of e ≢ transfer_running
unfolding status_of
status_of-running e = ground arith

-- A finished job stays as it is: no later call takes it out of its terminal state, in which it is
-- completed exactly when it has no error.
pub finish-stays :
    (now : ℕ) (e : Option Error) (cs : List Call) (j : TransferJob)
    → j.err ≡ none
    → ((run cs (finish now e j)).done ≡ true)
      × ((run cs (finish now e j)).status ≡ (finish now e j).status)
      × ((run cs (finish now e j)).status ≢ transfer_running)
      × (((run cs (finish now e j)).status ≡ transfer_completed)
          ↔ ((run cs (finish now e j)).err ≡ none))
finish-stays now e cs j h =
    let k = run-Keeps cs (finish now e j) in
    rw (k.same_status, k.same_err, k.same_done, finish-status now e j h)
      (finish-done now e j, refl, status_of-running _, status_of-completed _)
