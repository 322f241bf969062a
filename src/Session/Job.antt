-- ===== src/Session/Job.antt =====
-- internal/session/job.go: one upload or download, with the cancellation cause of its context. Times
-- are numbers, and a closer is known by its number. Each method is one step: abortCause and finish are
-- too, although they cancel the context once they have given up the lock, and finish reads the cause
-- before it takes the lock.
pub mod Outcome
pub mod Closers
mod Samples
use gooners.Base.{
  ℕ, zero, suc, ◌+◌, ◌-◌, ◌*◌, ◌≤◌, ◌<◌, ◌≡◌, refl, sym, ap, ◌∙◌, ◌≢◌, ◌↔◌, ◌⊎◌, inl, inr, Bool,
  true, false, not, ◌&&◌, ◌||◌, Option, none, some, List, [], ◌∷◌, ◌++◌, map, arith, ltb, leb,
  nat_beq, if◌then◌else◌, Eq, ◌==◌, nat_eq, ==-self, list_beq, list_beq_iff, list_eq, Bool-cases,
  Option-cases, length, get_elem?, take, drop, keep, is_empty, get_or, is_some, or_else,
  length-append, length-keep-le, keep-append, All, All-append, contains, count, contains-append,
  contains-keep, Text, text, to_lower, has_prefix, has_infix, has_suffix, trim_prefix,
  trim_prefix-append,
}
use gooners.Base.Map
use gooners.Base.Map.{Map}

-- The two causes of the package, the standard library's context.Canceled, any other error, and an
-- error that wraps another.
pub data Error : Type 0 where
  transfer_canceled session_closed context_canceled : Error
  failure : ℕ → Error
  wrapped : Text → Error → Error

pub data TransferStatus : Type 0 where
  transfer_running transfer_completed transfer_failed transfer_canceled_status : TransferStatus

-- `cause` is what context.Cause gives for the job's context.
pub record TransferJob : Type 0 where
  pub total_bytes : ℕ
  pub bytes : ℕ
  pub finished_at : ℕ
  pub status : TransferStatus
  pub err : Option Error
  pub done : Bool
  pub result : Option ℕ
  pub closer : Option ℕ
  pub aborted : Bool
  pub cause : Option Error

unfoldable pub new_transfer_job : TransferJob
new_transfer_job = record {
  total_bytes = 0;
  bytes = 0;
  finished_at = 0;
  status = transfer_running;
  err = none;
  done = false;
  result = none;
  closer = none;
  aborted = false;
  cause = none;
}

-- errors.Is with ErrTransferCanceled and with context.Canceled
abbrev pub is_transfer_canceled : Error → Bool
is_transfer_canceled transfer_canceled = true
is_transfer_canceled (wrapped _ e) = is_transfer_canceled e
is_transfer_canceled _ = false

abbrev pub is_context_canceled : Error → Bool
is_context_canceled context_canceled = true
is_context_canceled (wrapped _ e) = is_context_canceled e
is_context_canceled _ = false

-- The context's CancelCauseFunc: the first call decides, and nil stands for context.Canceled.
unfoldable pub cancel : Option Error → TransferJob → TransferJob
cancel cause j = elim j.cause [
  | some _ ↦ j
  | none ↦ record j { cause = some (get_or cause context_canceled) }
]

unfoldable pub set_result : ℕ → TransferJob → TransferJob
set_result b j = record j { result = some b }

unfoldable pub set_total : ℕ → TransferJob → TransferJob
set_total n j = record j { total_bytes = n }

unfoldable pub add : ℕ → TransferJob → TransferJob
add n j = record j { bytes = j.bytes + n }

unfoldable pub set_closer : ℕ → TransferJob → TransferJob × Bool
set_closer c j = if j.aborted then (j, false) else (record j { closer = some c }, true)

unfoldable pub abort_cause : Error → TransferJob → TransferJob × Option ℕ
unfolding cancel
abort_cause cause j =
    if j.aborted
    then (j, none)
    else (cancel (some cause) (record j { aborted = true; closer = none }), j.closer)

-- The error that finish records: the cancellation cause says why a transfer really stopped.
unfoldable pub outcome : Option Error → Option Error → Option Error
outcome cause none = none
outcome cause (some e) = elim cause [
  | none ↦ some e
  | some c ↦ if is_context_canceled c then some e else some c
]

unfoldable pub status_of : Option Error → TransferStatus
status_of none = transfer_completed
status_of (some e) = if is_transfer_canceled e then transfer_canceled_status else transfer_failed

unfoldable pub finish : ℕ → Option Error → TransferJob → TransferJob
unfolding cancel outcome status_of
finish now e j =
    let e' = outcome j.cause e in
    cancel none (record j {
      finished_at = now;
      done = true;
      closer = none;
      status = status_of e';
      err = or_else e' j.err;
    })

unfoldable pub job_finished_at : TransferJob → ℕ
job_finished_at j = if j.done then j.finished_at else 0
