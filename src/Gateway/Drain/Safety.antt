-- ===== src/Gateway/Drain/Safety.antt =====
-- internal/gateway/drain.go: the states that the interleavings of calls with Close reach.
use gooners.Base.{
  ℕ, zero, suc, ◌≡◌, refl, ap, ◌∙◌, ◌↔◌, ◌⊎◌, inl, inr, true, false, some, arith, nat_eq, list_eq,
  Bool-cases, contains,
}
use gooners.Gateway.Drain.{
  upstream_closed, is_zero, Refusal, Upstream, refused, enter, at_once, on, drain, start_close,
  close_session, install, ℤ, pos,
}
use gooners.Gateway.Drain.Steps.{
  Phase, State, Step, Reach, here, next, initial, serving, closing, waiting, skipped, drained,
  timed_out, call, refuse, return_, connect, lose, close, drain_skips, drain_at_once, drain_waits,
  woken, timer, tear_down,
}
use gooners.Gateway.Drain.Invariant.{
  PhaseHolds, Inv, initial-Inv, open_phase, lost_phase, call-Inv, return-Inv,
}

install_closed : (u : Upstream) (session : ℕ) → u.closed ≡ true → (install session u).0 ≡ u
unfolding install
install_closed u session e = ground arith

install_open :
    (u : Upstream) (session : ℕ)
    → u.closed ≡ false
    → (install session u).0 ≡ record u { session = some session }
unfolding install
install_open u session e = ground arith

connect-Inv :
    (s : State) (session : ℕ) → Inv s → Inv (record s { upstream = (install session s.upstream).0 })
connect-Inv s session i = elim (Bool-cases s.upstream.closed) [
  | inl e ↦ rw (install_closed s.upstream session e) i
  | inr e ↦ rw (install_open s.upstream session e) (record {
    counted = i.counted;
    pending = i.pending;
    numbered = i.numbered;
    phase_holds =
        open_phase s.phase s.upstream (record s.upstream { session = some session }) s.calls s.calls
          i.phase_holds e e;
  })
]

zero_iff : (z : ℤ) (n : ℕ) → z ≡ pos n → (is_zero z ≡ true) ↔ (n ≡ 0)
zero_iff z zero e = rw e (λ h. refl, λ h. refl)
zero_iff z (suc n) e = rw e (λ h. cc, λ h. absurd (omega arith))

module _ (s : State) (h : s.upstream.closed ≡ true) (i : Inv s) where
  drain-Inv :
      (ch : ℕ)
      → (drain false s.upstream).1 ≡ on ch
      → Inv (record s { upstream = (drain false s.upstream).0; phase = waiting ch })
  unfolding drain
  drain-Inv ch w = record {
    counted = ground (arith, i.counted);
    pending = λ c d. ground (
      arith,
      i.pending c,
      i.numbered s.upstream.channels,
      i.numbered c,
      zero_iff s.upstream.inflight s.calls i.counted,
    );
    numbered = λ c d. ground (arith, i.numbered c);
    phase_holds = (ground arith, inl (ground arith));
  }

  drained-Inv :
      (drain false s.upstream).1 ≡ at_once true
      → Inv (record s { upstream = (drain false s.upstream).0; phase = drained })
  unfolding drain
  drained-Inv w = record {
    counted = ground (arith, i.counted);
    pending = λ c d. ground (arith, i.pending c);
    numbered = λ c d. ground (arith, i.numbered c);
    phase_holds = ground (arith, zero_iff s.upstream.inflight s.calls i.counted);
  }

started : (u : Upstream) → u.closed ≡ false → (start_close u).0 ≡ record u { closed = true }
unfolding start_close
started u e = ground arith

-- What the invariant says where the phase is known.
at_phase : (s : State) (ph : Phase) → s.phase ≡ ph → Inv s → PhaseHolds ph s.upstream s.calls
at_phase s ph e i = rw e at i.phase_holds

woken_calls :
    (s : State) (ch : ℕ)
    → s.phase ≡ waiting ch
    → contains s.upstream.closed_channels ch ≡ true
    → Inv s
    → s.calls ≡ 0
woken_calls s ch e w i = ground (arith, (at_phase s (waiting ch) e i).1, i.pending ch)

ended :
    (s : State)
    → (s.phase ≡ skipped) ⊎ (s.phase ≡ drained) ⊎ (s.phase ≡ timed_out)
    → Inv s
    → s.upstream.closed ≡ true
ended s (inl e) i = at_phase s skipped e i
ended s (inr (inl e)) i = (at_phase s drained e i).0
ended s (inr (inr e)) i = at_phase s timed_out e i

refused_same : (u : Upstream) (r : Refusal) → (enter u).1 ≡ refused r → (enter u).0 ≡ u
unfolding enter
refused_same u r e = ground arith

step-Inv : {s t : State} → Step s t → Inv s → Inv t
step-Inv (call session e p) i = rw p (call-Inv _ session e i)
step-Inv {s} (refuse r e p) i = rw (p, refused_same s.upstream r e) i
step-Inv (return_ n e p) i = rw p (return-Inv _ n e i)
step-Inv (connect session p) i = rw p (connect-Inv _ session i)
step-Inv {s} (lose p) i = rw p (
    unfold close_session in
    record {
      counted = i.counted;
      pending = i.pending;
      numbered = i.numbered;
      phase_holds = lost_phase s.phase s.upstream s.calls i.phase_holds;
    })
step-Inv {s} (close e p) i =
    rw (p, started s.upstream (at_phase s serving e i))
      (record {
        counted = i.counted;
        pending = i.pending;
        numbered = i.numbered;
        phase_holds = refl;
      })
step-Inv {s} (drain_skips e w p) i = rw p (
    unfold drain in
    record {
      counted = i.counted;
      pending = i.pending;
      numbered = i.numbered;
      phase_holds = at_phase s closing e i;
    })
step-Inv {s} (drain_at_once e w p) i = rw p (drained-Inv s (at_phase s closing e i) i w)
step-Inv {s} (drain_waits ch e w p) i = rw p (drain-Inv s (at_phase s closing e i) i ch w)
step-Inv {s} (woken ch e w p) i = rw p (record {
  counted = i.counted;
  pending = i.pending;
  numbered = i.numbered;
  phase_holds = ((at_phase s (waiting ch) e i).0, woken_calls s ch e w i);
})
step-Inv {s} (timer ch e p) i = rw p (record {
  counted = i.counted;
  pending = i.pending;
  numbered = i.numbered;
  phase_holds = (at_phase s (waiting ch) e i).0;
})
step-Inv {s} (tear_down e p) i = rw p (
    unfold close_session in
    record {
      counted = i.counted;
      pending = i.pending;
      numbered = i.numbered;
      phase_holds = (ended s e i, refl);
    })

Reach-Inv : {s t : State} → Inv s → Reach s t → Inv t
Reach-Inv i here = i
Reach-Inv i (next r st) = step-Inv st (Reach-Inv i r)

-- In every interleaving, when a drain whose timeout is not negative reports that it drained, no call
-- holds the session, none can claim it any more, and the counter is zero.
pub drained_safe :
    (s : State)
    → Reach initial s
    → s.phase ≡ drained
    → (s.calls ≡ 0)
      × (s.upstream.inflight ≡ pos 0)
      × (enter s.upstream ≡ (s.upstream, refused upstream_closed))
unfolding enter
drained_safe s r e =
    let i = Reach-Inv initial-Inv r in
    let holds = at_phase s drained e i in
    (holds.1, i.counted ∙ ap pos holds.1, ground (arith, holds.0))

-- In every interleaving the counter is the number of calls between enter and leave, so it never
-- goes below zero.
pub inflight_counts : (s : State) → Reach initial s → s.upstream.inflight ≡ pos s.calls
inflight_counts s r = (Reach-Inv initial-Inv r).counted

-- A drain that waits is not forgotten: once no call holds the session, the channel that it waits on
-- has been closed.
pub waiting_woken :
    (s : State) (ch : ℕ)
    → Reach initial s
    → s.phase ≡ waiting ch
    → s.calls ≡ 0
    → contains s.upstream.closed_channels ch ≡ true
waiting_woken s ch r e z =
    let i = Reach-Inv initial-Inv r in ground (arith, (at_phase s (waiting ch) e i).1, i.pending ch)
