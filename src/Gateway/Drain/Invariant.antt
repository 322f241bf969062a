-- ===== src/Gateway/Drain/Invariant.antt =====
-- internal/gateway/drain.go: an invariant of the interleavings, at the steps of calls.
use gooners.Base.{
  ℕ, zero, suc, ◌<◌, ◌≡◌, refl, ap, ◌∙◌, ◌⊎◌, inl, inr, true, false, none, some, arith, nat_eq,
  ==-self, list_eq, Option-cases, contains,
}
use gooners.Gateway.Drain.{Upstream, claimed, enter, leave, pos}
use gooners.Gateway.Drain.Steps.{
  Phase, State, initial, serving, closing, waiting, skipped, drained, timed_out, finished,
}

-- What the phase of Close says of the upstream.
abbrev pub PhaseHolds : Phase → Upstream → ℕ → Type 0
PhaseHolds serving u calls = u.closed ≡ false
PhaseHolds closing u calls = u.closed ≡ true
PhaseHolds (waiting ch) u calls =
    (u.closed ≡ true)
    × ((u.drained ≡ some ch) ⊎ ((calls ≡ 0) × (contains u.closed_channels ch ≡ true)))
PhaseHolds skipped u calls = u.closed ≡ true
PhaseHolds drained u calls = (u.closed ≡ true) × (calls ≡ 0)
PhaseHolds timed_out u calls = u.closed ≡ true
PhaseHolds finished u calls = (u.closed ≡ true) × (u.session ≡ none)

-- The counter counts the calls, the drain channel is there only while there are calls and is not yet
-- closed, and the channels that were made have numbers below the next one.
pub record Inv (s : State) : Type 0 where
  pub counted : s.upstream.inflight ≡ pos s.calls
  pub pending :
      (ch : ℕ)
      → s.upstream.drained ≡ some ch
      → (0 < s.calls)
        × (contains s.upstream.closed_channels ch ≡ false)
        × (ch < s.upstream.channels)
  pub numbered : (ch : ℕ) → contains s.upstream.closed_channels ch ≡ true → ch < s.upstream.channels
  pub phase_holds : PhaseHolds s.phase s.upstream s.calls

pub initial-Inv : Inv initial
initial-Inv = record {
  counted = refl;
  pending = λ ch e. cc;
  numbered = λ ch e. cc;
  phase_holds = refl;
}

-- While the upstream is open Close has not started, whatever else changes.
pub open_phase :
    (ph : Phase) (u v : Upstream) (calls more : ℕ)
    → PhaseHolds ph u calls
    → u.closed ≡ false
    → v.closed ≡ false
    → PhaseHolds ph v more
open_phase serving u v calls more h o c = c
open_phase closing u v calls more h o c = cc
open_phase (waiting ch) u v calls more (h, _) o c = cc
open_phase skipped u v calls more h o c = cc
open_phase drained u v calls more (h, _) o c = cc
open_phase timed_out u v calls more h o c = cc
open_phase finished u v calls more (h, _) o c = cc

-- Losing the session suits every phase.
pub lost_phase :
    (ph : Phase) (u : Upstream) (calls : ℕ)
    → PhaseHolds ph u calls
    → PhaseHolds ph (record u { session = none }) calls
lost_phase serving u calls h = h
lost_phase closing u calls h = h
lost_phase (waiting ch) u calls h = h
lost_phase skipped u calls h = h
lost_phase drained u calls h = h
lost_phase timed_out u calls h = h
lost_phase finished u calls h = (h.0, refl)

return_phase :
    (ph : Phase) (u : Upstream) (n : ℕ)
    → u.inflight ≡ pos (suc n)
    → PhaseHolds ph u (suc n)
    → PhaseHolds ph (leave u) n
unfolding leave
return_phase serving u n e h = ground arith
return_phase closing u n e h = ground arith
return_phase (waiting ch) u zero e h = (ground arith, inr (refl, ground (arith, ==-self ch)))
return_phase (waiting ch) u (suc n) e h = ground arith
return_phase skipped u n e h = ground arith
return_phase drained u n e h = ground arith
return_phase timed_out u n e h = ground arith
return_phase finished u n e h = ground arith

pub call-Inv :
    (s : State) (session : ℕ)
    → (enter s.upstream).1 ≡ claimed session
    → Inv s
    → Inv (record s { upstream = (enter s.upstream).0; calls = suc s.calls })
unfolding enter
call-Inv s session e i = record {
  counted = ground (arith, i.counted);
  pending = λ ch d. ground (arith, i.pending ch);
  numbered = λ ch c. ground (arith, i.numbered ch);
  phase_holds =
      open_phase s.phase s.upstream (enter s.upstream).0 s.calls (suc s.calls) i.phase_holds
        (ground arith) (ground arith);
}

-- The counter when a call is about to return.
module _ (s : State) (i : Inv s) where
  return_counted : (n : ℕ) → s.calls ≡ suc n → (leave s.upstream).inflight ≡ pos n
  unfolding leave
  return_counted n e = elim (Option-cases s.upstream.drained) [
    | inl d ↦ ground (arith, i.counted)
    | inr (ch, d) ↦ ground (arith, i.counted)
  ]

  return_pending :
      (n ch : ℕ)
      → s.calls ≡ suc n
      → (leave s.upstream).drained ≡ some ch
      → (0 < n)
        × (contains (leave s.upstream).closed_channels ch ≡ false)
        × (ch < (leave s.upstream).channels)
  unfolding leave
  return_pending zero ch e d = ground (arith, i.counted, i.pending ch)
  return_pending (suc n) ch e d = ground (arith, i.counted, i.pending ch)

  return_numbered :
      (n ch : ℕ)
      → s.calls ≡ suc n
      → contains (leave s.upstream).closed_channels ch ≡ true
      → ch < (leave s.upstream).channels
  unfolding leave
  return_numbered n ch e c = elim (Option-cases s.upstream.drained) [
    | inl d ↦ ground (arith, i.counted, i.numbered ch, d)
    | inr (old, d) ↦ ground (arith, i.counted, i.numbered ch, i.pending old d, d)
  ]

pub return-Inv :
    (s : State) (n : ℕ)
    → s.calls ≡ suc n
    → Inv s
    → Inv (record s { upstream = leave s.upstream; calls = n })
return-Inv s n e i = record {
  counted = return_counted s i n e;
  pending = λ ch. return_pending s i n ch e;
  numbered = λ ch. return_numbered s i n ch e;
  phase_holds = return_phase s.phase s.upstream n (i.counted ∙ ap pos e) (rw e at i.phase_holds);
}
