-- ===== src/Session/Pool/Closing.antt =====
-- internal/session/pool_handlers.go: transfers and spool files across the handlers.
use gooners.Base.{
  ◌⊎◌, ◌≤◌, ◌+◌, ℕ, ◌≡◌, ◌≢◌, true, false, none, some, arith, if◌then◌else◌, ◌==◌, nat_eq, ==-self,
  list_beq_iff, list_eq, get_or, Text,
}
use gooners.Base.Map
use gooners.Base.Map.{Map}
use gooners.Session.Job.{Error}
use gooners.Session.Pool.{
  Session, Transfer, PoolState, handle_register_spool, handle_get_spool, handle_delete_spool,
}

-- What closing a session for a cause leaves of a transfer: one of another session is as it was, one of
-- this session has that cause unless it had one, and if it was running it has been aborted.
pub record IsClosed (cause : Error) (id : Text) (t u : Transfer) : Type 0 where
  pub others_same : t.session_id ≢ id → u ≡ t
  pub same_cause : t.session_id ≡ id → u.job.cause ≡ some (get_or t.job.cause cause)
  pub running_aborted : t.session_id ≡ id → t.job.done ≡ false → u.job.aborted ≡ true
  pub same_done : u.job.done ≡ t.job.done

-- A transfer that runs, one without a time of its end, and one whose end lies within the retention.
abbrev pub IsRecent : ℕ → ℕ → Transfer → Type 0
IsRecent retention now t =
    (t.job.done ≡ false) ⊎ (t.job.finished_at ≡ 0) ⊎ (now ≤ t.job.finished_at + retention)

-- Spool files are found by their identifier, as registered last, until they are deleted; registering
-- or deleting one does not change what is found for the others.
pub handle_get_spool-register :
    (id spool_id other path : Text) (st : PoolState) (s : Session)
    → Map.get id st.sessions ≡ some s
    → (handle_get_spool id other (handle_register_spool id spool_id path st).0
        ≡ (if spool_id == other then some path else handle_get_spool id other st))
      × (handle_get_spool id other (handle_delete_spool id spool_id st).0
          ≡ (if spool_id == other then none else handle_get_spool id other st))
unfolding handle_get_spool handle_register_spool handle_delete_spool
handle_get_spool-register id spool_id other path st s h = (
  ground (
    arith,
    h,
    ==-self id,
    Map.get-put id id (record s { spools = Map.put spool_id path s.spools }) st.sessions,
    Map.get-put spool_id other path s.spools,
  ),
  ground (
    arith,
    h,
    ==-self id,
    list_beq_iff spool_id other,
    Map.get-put id id (record s { spools = Map.delete spool_id s.spools }) st.sessions,
    Map.get-delete spool_id other s.spools,
  ),
)
