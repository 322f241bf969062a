-- ===== src/Gateway/Drain/Steps.antt =====
-- The interleavings of calls, connects and one Close on an upstream.
use gooners.Base.{ℕ, suc, ◌≡◌, ◌⊎◌, true, false, none, [], nat_eq, list_eq, contains}
use gooners.Gateway.Drain.{
  Upstream, Refusal, claimed, refused, enter, leave, at_once, on, drain, start_close, close_session,
  install, pos,
}

-- Where Close stands: not called, past its first section, waiting on a channel, past drain because
-- its timeout is negative, done waiting with all calls gone or with the timer, and past
-- closeSessionResources.
pub data Phase : Type 0 where
  serving closing : Phase
  waiting : ℕ → Phase
  skipped drained timed_out finished : Phase

-- `calls` are the calls between enter and leave.
pub record State : Type 0 where
  pub upstream : Upstream
  pub calls : ℕ
  pub phase : Phase

-- One critical section of some goroutine. A drain timeout that is negative switches draining off;
-- which of the two it is stays open here, so that the runs for both are among these.
pub data Step (s t : State) : Type 0 where
  call :
      (session : ℕ)
      → (enter s.upstream).1 ≡ claimed session
      → t ≡ record s { upstream = (enter s.upstream).0; calls = suc s.calls }
      → Step s t
  refuse :
      (r : Refusal)
      → (enter s.upstream).1 ≡ refused r
      → t ≡ record s { upstream = (enter s.upstream).0 }
      → Step s t
  return_ :
      (n : ℕ) → s.calls ≡ suc n → t ≡ record s { upstream = leave s.upstream; calls = n } → Step s t
  connect : (session : ℕ) → t ≡ record s { upstream = (install session s.upstream).0 } → Step s t
  lose : t ≡ record s { upstream = close_session s.upstream } → Step s t
  close :
      s.phase ≡ serving
      → t ≡ record s { upstream = (start_close s.upstream).0; phase = closing }
      → Step s t
  drain_skips :
      s.phase ≡ closing
      → (drain true s.upstream).1 ≡ at_once true
      → t ≡ record s { upstream = (drain true s.upstream).0; phase = skipped }
      → Step s t
  drain_at_once :
      s.phase ≡ closing
      → (drain false s.upstream).1 ≡ at_once true
      → t ≡ record s { upstream = (drain false s.upstream).0; phase = drained }
      → Step s t
  drain_waits :
      (ch : ℕ)
      → s.phase ≡ closing
      → (drain false s.upstream).1 ≡ on ch
      → t ≡ record s { upstream = (drain false s.upstream).0; phase = waiting ch }
      → Step s t
  woken :
      (ch : ℕ)
      → s.phase ≡ waiting ch
      → contains s.upstream.closed_channels ch ≡ true
      → t ≡ record s { phase = drained }
      → Step s t
  timer : (ch : ℕ) → s.phase ≡ waiting ch → t ≡ record s { phase = timed_out } → Step s t
  tear_down :
      (s.phase ≡ skipped) ⊎ (s.phase ≡ drained) ⊎ (s.phase ≡ timed_out)
      → t ≡ record s { upstream = close_session s.upstream; phase = finished }
      → Step s t

pub data Reach (s : State) : State → Type 0 where
  here : Reach s s
  next : {t u : State} → Reach s t → Step t u → Reach s u

abbrev pub new_upstream : Upstream
new_upstream = record {
  closed = false;
  session = none;
  inflight = pos 0;
  drained = none;
  closed_channels = [];
  channels = 0;
}

abbrev pub initial : State
initial = record { upstream = new_upstream; calls = 0; phase = serving }
