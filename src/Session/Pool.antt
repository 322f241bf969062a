-- ===== src/Session/Pool.antt =====
-- internal/session/pool_handlers.go: the handlers of the pool's event loop, each as a function on the
-- state that the loop owns. Clients, forwards and times are numbers.
pub mod Closing
mod Samples
use gooners.Base.{
  ℕ, zero, suc, ◌+◌, ◌-◌, ◌*◌, ◌≤◌, ◌<◌, ◌≡◌, refl, sym, ap, ◌∙◌, ◌≢◌, ◌↔◌, ◌⊎◌, inl, inr, Bool,
  true, false, not, ◌&&◌, ◌||◌, Option, none, some, List, [], ◌∷◌, ◌++◌, map, arith, ltb, leb,
  nat_beq, if◌then◌else◌, Eq, ◌==◌, nat_eq, ==-self, list_beq, list_beq_iff, list_eq, Bool-cases,
  Option-cases, length, get_elem?, take, drop, keep, is_empty, get_or, is_some, or_else,
  length-append, length-keep-le, keep-append, All, All-append, contains, count, contains-append,
  contains-keep, Text, text, to_lower, has_prefix, has_infix, has_suffix, trim_prefix,
  trim_prefix-append,
}
use gooners.Base.Map
use gooners.Base.Map.{Map}
use gooners.Session.Job.{
  TransferJob, new_transfer_job, Error, transfer_canceled, session_closed, cancel, abort_cause,
  job_finished_at,
}

pub record Session : Type 0 where
  pub machine : Text
  pub client : ℕ
  pub spools : Map Text Text
  pub forwards : List ℕ
  pub platform : Text
  pub last_ping : ℕ

-- A transfer with the session that it belongs to.
pub record Transfer : Type 0 where
  pub session_id : Text
  pub job : TransferJob

pub record PoolState : Type 0 where
  pub sessions : Map Text Session
  pub uploads : Map Text Transfer
  pub downloads : Map Text Transfer
  pub live_sessions : ℕ

-- What a handler has done outside the state: the SFTP clients and the SSH client that it closes, and
-- the spool files that it removes.
pub record Effects : Type 0 where
  pub closers : List ℕ
  pub clients : List ℕ
  pub removed : List Text

abbrev pub no_effects : Effects
no_effects = record { closers = []; clients = []; removed = [] }

pub data Missing : Type 0 where
  session_not_found transfer_not_found spool_not_found path_refused dial_failed : Missing

abbrev pub listed : Option ℕ → List ℕ
listed none = []
listed (some c) = c ∷ []

-- evict's test of one job: it has ended, and longer ago than the retention.
abbrev pub is_expired : ℕ → ℕ → Transfer → Bool
is_expired retention now t =
    let at = job_finished_at t.job in not (at == 0) && ltb retention (now - at)

unfoldable pub evict : ℕ → ℕ → Map Text Transfer → Map Text Transfer
evict retention now jobs = keep (λ (id, t). not (is_expired retention now t)) jobs

-- handleClose on one transfer of the session: the cancellation of the session's context reaches the
-- job's, and a job that runs is aborted.
unfoldable pub close_transfer : Error → Text → Transfer → Transfer × Option ℕ
unfolding abort_cause cancel
close_transfer cause id t =
    let j = cancel (some cause) t.job in
    let (j', closer) = abort_cause cause j in
    if not (t.session_id == id)
    then (t, none)
    else if j.done
    then (record t { job = j }, none)
    else (record t { job = j' }, closer)

abbrev pub close_transfers : Error → Text → Map Text Transfer → Map Text Transfer
close_transfers cause id jobs = map (λ (k, t). (k, (close_transfer cause id t).0)) jobs

abbrev pub closers_of : Error → Text → Map Text Transfer → List ℕ
closers_of cause id [] = []
closers_of cause id ((k, t) ∷ jobs) =
    listed (close_transfer cause id t).1 ++ closers_of cause id jobs

unfoldable pub handle_close : Text → Option Error → PoolState → PoolState × Effects
unfolding close_transfer
handle_close id cause st = elim (Map.get id st.sessions) [
  | none ↦ (st, no_effects)
  | some s ↦
      let c = get_or cause session_closed in
      (
        record {
          sessions = Map.delete id st.sessions;
          uploads = close_transfers c id st.uploads;
          downloads = close_transfers c id st.downloads;
          live_sessions = st.live_sessions - 1;
        },
        record {
          closers = closers_of c id st.uploads ++ closers_of c id st.downloads;
          clients = s.forwards ++ (s.client ∷ []);
          removed = map (λ (k, path). path) s.spools ++ (id ∷ []);
        },
      )
]

-- handleDialResult, with the identifier that generateSessionID gives.
unfoldable pub handle_dial_result : Text → Option Session → PoolState → PoolState × Option Missing
handle_dial_result id none st = (st, some dial_failed)
handle_dial_result id (some s) st =
    (record st { sessions = Map.put id s st.sessions; live_sessions = st.live_sessions + 1 }, none)

unfoldable pub handle_get : Text → PoolState → Option ℕ
handle_get id st = elim (Map.get id st.sessions) [ none ↦ none | some s ↦ some s.client ]

-- handleUpload, for a path that the local file system resolves or not; `owned` tells that the bytes
-- come from a Source instead, which is closed when no job starts. The answer tells whether it was.
unfoldable pub handle_upload :
    Bool → Bool → ℕ → ℕ → Text → Text → PoolState → PoolState × (Option Missing × Bool)
unfolding evict
handle_upload resolves owned retention now id session_id st =
    elim (Map.get session_id st.sessions) [
      | none ↦ (st, (some session_not_found, owned))
      | some s ↦ if not owned && not resolves then (st, (some path_refused, owned)) else (
        record st {
          uploads =
              Map.put id (record { session_id = session_id; job = new_transfer_job })
                (evict retention now st.uploads);
        },
        (none, false),
      )
    ]

unfoldable pub handle_download :
    Bool → Bool → ℕ → ℕ → Text → Text → PoolState → PoolState × Option Missing
unfolding evict
handle_download resolves sink retention now id session_id st =
    elim (Map.get session_id st.sessions) [
      | none ↦ (st, some session_not_found)
      | some s ↦ if not sink && not resolves then (st, some path_refused) else (
        record st {
          downloads =
              Map.put id (record { session_id = session_id; job = new_transfer_job })
                (evict retention now st.downloads);
        },
        none,
      )
    ]

-- findUploadJob and findDownloadJob, on the map that they look in.
pub data Found : Type 0 where
  found : Transfer → Found
  missing : Missing → Found

unfoldable pub find_job : Map Text Transfer → Text → Text → PoolState → Found
find_job jobs session_id id st = elim (Map.get id jobs) [
  | some t ↦ found t
  | none ↦
      missing (if Map.has session_id st.sessions then transfer_not_found else session_not_found)
]

unfoldable pub find_upload_job : Text → Text → PoolState → Found
unfolding find_job
find_upload_job session_id id st = find_job st.uploads session_id id st

unfoldable pub find_download_job : Text → Text → PoolState → Found
unfolding find_job
find_download_job session_id id st = find_job st.downloads session_id id st

-- cancelJob in handleUploadCancel
unfoldable pub handle_upload_cancel :
    Text → Text → PoolState → PoolState × (Option Missing × Option ℕ)
unfolding find_upload_job abort_cause
handle_upload_cancel session_id id st = elim (find_upload_job session_id id st) [
  | missing e ↦ (st, (some e, none))
  | found t ↦
      let (j, closer) = abort_cause transfer_canceled t.job in
      (record st { uploads = Map.put id (record t { job = j }) st.uploads }, (none, closer))
]

unfoldable pub handle_download_cancel :
    Text → Text → PoolState → PoolState × (Option Missing × Option ℕ)
unfolding find_download_job abort_cause
handle_download_cancel session_id id st = elim (find_download_job session_id id st) [
  | missing e ↦ (st, (some e, none))
  | found t ↦
      let (j, closer) = abort_cause transfer_canceled t.job in
      (record st { downloads = Map.put id (record t { job = j }) st.downloads }, (none, closer))
]

abbrev put_spools : Text → Session → Map Text Text → PoolState → PoolState
put_spools id s spools st = record st {
  sessions = Map.put id (record s { spools = spools }) st.sessions;
}

unfoldable pub handle_register_spool : Text → Text → Text → PoolState → PoolState × Option Missing
handle_register_spool id spool_id path st = elim (Map.get id st.sessions) [
  | none ↦ (st, some session_not_found)
  | some s ↦ (put_spools id s (Map.put spool_id path s.spools) st, none)
]

unfoldable pub handle_get_spool : Text → Text → PoolState → Option Text
handle_get_spool id spool_id st = elim (Map.get id st.sessions) [
  | none ↦ none
  | some s ↦ Map.get spool_id s.spools
]

unfoldable pub handle_delete_spool :
    Text → Text → PoolState → PoolState × (Option Missing × List Text)
handle_delete_spool id spool_id st = elim (Map.get id st.sessions) [
  | none ↦ (st, (some session_not_found, []))
  | some s ↦ elim (Map.get spool_id s.spools) [
    | none ↦ (st, (some spool_not_found, []))
    | some path ↦ (put_spools id s (Map.delete spool_id s.spools) st, (none, path ∷ []))
  ]
]

unfoldable pub handle_touch : Text → ℕ → PoolState → PoolState × Option Missing
handle_touch id at st = elim (Map.get id st.sessions) [
  | none ↦ (st, some session_not_found)
  | some s ↦ (record st { sessions = Map.put id (record s { last_ping = at }) st.sessions }, none)
]
