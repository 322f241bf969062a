-- ===== src/Session/Pool/Samples.antt =====
-- Two sessions with an upload each.
use gooners.Base.{ℕ, some, [], ◌∷◌, nat_eq, list_eq, Text, text}
use gooners.Base.Map
use gooners.Base.Map.{Map}
use gooners.Session.Job.{new_transfer_job}
use gooners.Session.Pool.{Session, Transfer, PoolState, handle_close}
use gooners.Session.Job.{failure}

abbrev session : ℕ → Session
session client = record {
  machine = text "host";
  client = client;
  spools = (text "p", text "a/p.out") ∷ [];
  forwards = [];
  platform = text "linux";
  last_ping = 0;
}

abbrev upload : Text → Transfer
upload id = record { session_id = id; job = new_transfer_job }

abbrev st : PoolState
st = record {
  sessions = (text "a", session 1) ∷ ((text "b", session 2) ∷ []);
  uploads = (text "u1", upload (text "a")) ∷ ((text "u2", upload (text "b")) ∷ []);
  downloads = (text "d1", upload (text "a")) ∷ [];
  live_sessions = 2;
}

abbrev closed : PoolState
closed = (handle_close (text "a") (some (failure 4)) st).0
