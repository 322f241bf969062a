-- ===== src/Session/Job/Closers.antt =====
-- internal/session/job.go: who closes the SFTP client of a transfer.
use gooners.Base.{
  ℕ, ◌≡◌, refl, sym, ap, ◌∙◌, Bool, true, false, Option, none, some, List, [], ◌∷◌, ◌++◌, arith,
  nat_eq, list_eq, if◌then◌else◌, inl, inr, Bool-cases,
}
use mathlib.Core.List.{append-nil, append_assoc}
use gooners.Session.Job.{TransferJob, new_transfer_job, Error, finish}
use gooners.Session.Job.Outcome.{run-Keeps, Call, close_with, step, run}

abbrev pub listed : Option ℕ → List ℕ
listed none = []
listed (some c) = c ∷ []

-- The closers that the calls hand to the job, and those that the calls give back to be closed.
abbrev pub offered : List Call → List ℕ
offered [] = []
offered (close_with c ∷ cs) = c ∷ offered cs
offered (_ ∷ cs) = offered cs

abbrev pub to_close : List Call → TransferJob → List ℕ
to_close [] j = []
to_close (c ∷ cs) j = listed (step c j).1 ++ to_close cs (step c j).0

abbrev is_offer : Call → Bool
is_offer (close_with _) = true
is_offer _ = false

step-keeps :
    (c : Call) (j : TransferJob)
    → is_offer c ≡ false
    → listed (step c j).1 ++ listed (step c j).0.closer ≡ listed j.closer
unfolding step
step-keeps c j h = ground arith

offered-skip : (c : Call) (cs : List Call) → is_offer c ≡ false → offered (c ∷ cs) ≡ offered cs
offered-skip c cs h = ground arith

none_offered :
    (cs : List Call) (j : TransferJob)
    → offered cs ≡ []
    → to_close cs j ++ listed (run cs j).closer ≡ listed j.closer
none_offered [] j h = refl
none_offered (close_with c ∷ cs) j h = cc
none_offered (c ∷ cs) j h =
    rw
      (
        append_assoc (listed (step c j).1) (to_close cs (step c j).0)
            (listed (run cs (step c j).0).closer),
        none_offered cs (step c j).0 h,
      )
      (step-keeps c j refl)

step-no_closer :
    (c : Call) (j : TransferJob)
    → is_offer c ≡ false
    → j.closer ≡ none
    → ((step c j).1 ≡ none) × ((step c j).0.closer ≡ none)
unfolding step
step-no_closer c j h n = ground arith

step-offer :
    (c : ℕ) (j : TransferJob)
    → j.closer ≡ none
    → listed (step (close_with c) j).1 ++ listed (step (close_with c) j).0.closer ≡ c ∷ []
unfolding step
step-offer c j n = ground arith

-- No closer is lost and none is closed twice: where the transfer hands over one SFTP client, after any
-- calls, with any number of aborts before and after, it has been given back to exactly one caller to
-- close, or else the job still holds it.
pub to_close-one :
    (cs : List Call) (c : ℕ) (j : TransferJob)
    → j.closer ≡ none
    → offered cs ≡ c ∷ []
    → to_close cs j ++ listed (run cs j).closer ≡ c ∷ []
to_close-one [] c j n h = cc
to_close-one (close_with d ∷ cs) c j n h =
    let both : (d ≡ c) × (offered cs ≡ []) = (cc, cc) in
    rw
      (
        append_assoc (listed (step (close_with d) j).1) (to_close cs (step (close_with d) j).0)
            (listed (run cs (step (close_with d) j).0).closer),
        none_offered cs (step (close_with d) j).0 both.1,
      )
      (step-offer d j n ∙ ap (λ x. x ∷ []) both.0)
to_close-one (x ∷ cs) c j n h =
    rw
      (
        append_assoc (listed (step x j).1) (to_close cs (step x j).0)
            (listed (run cs (step x j).0).closer),
        (step-no_closer x j refl n).0,
      )
      (to_close-one cs c (step x j).0 (step-no_closer x j refl n).1 h)

step-aborted :
    (c : Call) (j : TransferJob)
    → (j.aborted ≡ true → j.closer ≡ none)
    → (step c j).0.aborted ≡ true
    → (step c j).0.closer ≡ none
unfolding step
step-aborted c j i h = ground arith

run-aborted :
    (cs : List Call) (j : TransferJob)
    → (j.aborted ≡ true → j.closer ≡ none)
    → (run cs j).aborted ≡ true
    → (run cs j).closer ≡ none
run-aborted [] j i h = i h
run-aborted (c ∷ cs) j i h = run-aborted cs (step c j).0 (step-aborted c j i) h

-- Calls that hand nothing over, on a job without a closer, have nothing to give back.
to_close-none :
    (cs : List Call) (j : TransferJob) → offered cs ≡ [] → j.closer ≡ none → to_close cs j ≡ []
to_close-none [] j h n = refl
to_close-none (close_with c ∷ cs) j h n = cc
to_close-none (c ∷ cs) j h n =
    let (nothing, none_left) = step-no_closer c j refl n in
    rw nothing (to_close-none cs (step c j).0 h none_left)

step-silent : (c : Call) (j : TransferJob) → (step c j).0.aborted ≡ false → (step c j).1 ≡ none
unfolding step
step-silent c j h = ground arith

-- While the job is not aborted no call is given a closer.
to_close-silent :
    (cs : List Call) (j : TransferJob) → (run cs j).aborted ≡ false → to_close cs j ≡ []
to_close-silent [] j h = refl
to_close-silent (c ∷ cs) j h =
    let next = (step c j).0 in
    let still : next.aborted ≡ false = elim (Bool-cases next.aborted) [
      | inl e ↦ ground (arith, h, (run-Keeps cs next).still_aborted e)
      | inr e ↦ e
    ] in
    rw (step-silent c j still) (to_close-silent cs next h)

run-no_closer :
    (cs : List Call) (j : TransferJob)
    → offered cs ≡ []
    → j.closer ≡ none
    → (run cs j).closer ≡ none
run-no_closer [] j h n = n
run-no_closer (close_with c ∷ cs) j h n = cc
run-no_closer (c ∷ cs) j h n = run-no_closer cs (step c j).0 h (step-no_closer c j refl n).1

finish-no_closer : (now : ℕ) (e : Option Error) (j : TransferJob) → (finish now e j).closer ≡ none
unfolding finish
finish-no_closer now e j = ground arith

-- A transfer that hands over one SFTP client while it runs, and then finishes. If the job has been
-- aborted by the time that it finishes, before or after the client was handed over, exactly one caller
-- has been given that client to close; if not, no caller has, and the job holds the client until it
-- finishes. From then on no call is given a client, however many aborts there are.
pub to_close-finished :
    (cs : List Call) (c now : ℕ) (e : Option Error) (more : List Call)
    → offered cs ≡ c ∷ []
    → offered more ≡ []
    → let j = run cs new_transfer_job in
      (to_close cs new_transfer_job ≡ (if j.aborted then c ∷ [] else []))
      × (listed j.closer ≡ (if j.aborted then [] else c ∷ []))
      × (to_close more (finish now e j) ≡ [])
      × ((run more (finish now e j)).closer ≡ none)
unfolding new_transfer_job
to_close-finished cs c now e more h m =
    let j = run cs new_transfer_job in
    let one : to_close cs new_transfer_job ++ listed j.closer ≡ c ∷ [] =
      to_close-one cs c new_transfer_job refl h in
    let after = finish now e j in
    let gone = finish-no_closer now e j in
    let later = to_close-none more after m gone in
    let left : (run more after).closer ≡ none = run-no_closer more after m gone in
    elim (Bool-cases j.aborted) [
      | inl a ↦
          let empty = run-aborted cs new_transfer_job (λ _. refl) a in
          let given : to_close cs new_transfer_job ≡ c ∷ [] =
            sym (append-nil (to_close cs new_transfer_job)) ∙ (rw empty at one) in
          (rw a given, rw (a, empty) refl, later, left)
      | inr a ↦
          let silent = to_close-silent cs new_transfer_job a in
          (rw a silent, rw a (rw silent at one), later, left)
    ]
