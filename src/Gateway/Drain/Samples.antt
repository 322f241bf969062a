-- ===== src/Gateway/Drain/Samples.antt =====
-- One call that is in flight while Close drains.
use gooners.Gateway.Drain.Safety.{drained_safe, waiting_woken}
use gooners.Gateway.Drain.Steps.{
  drain_waits, close, call, connect, here, woken, return_, next, serving, initial, waiting, drained,
  closing, new_upstream, State, Reach,
}
use gooners.Base.{◌≡◌, refl, true, none, some, [], ◌∷◌, nat_eq, list_eq, contains}
use gooners.Gateway.Drain.{upstream_closed, refused, pos, enter, leave, drain, start_close, install}

abbrev connected : State
connected = record initial { upstream = record new_upstream { session = some 7 } }

abbrev busy : State
busy = record {
  upstream = record new_upstream { session = some 7; inflight = pos 1 };
  calls = 1;
  phase = serving;
}

abbrev closed_busy : State
closed_busy = record busy { upstream = record busy.upstream { closed = true }; phase = closing }

abbrev waits : State
waits = record closed_busy {
  upstream = record closed_busy.upstream { drained = some 0; channels = 1 };
  phase = waiting 0;
}

abbrev left : State
left = record waits {
  upstream = record waits.upstream { inflight = pos 0; drained = none; closed_channels = 0 ∷ [] };
  calls = 0;
}

abbrev done : State
done = record left { phase = drained }

Reach-connected : Reach initial connected
unfolding install
Reach-connected = next here (connect 7 refl)

Reach-busy : Reach initial busy
unfolding enter
Reach-busy = next Reach-connected (call 7 refl refl)

Reach-closed : Reach initial closed_busy
unfolding start_close
Reach-closed = next Reach-busy (close refl refl)

Reach-waits : Reach initial waits
unfolding drain
Reach-waits = next Reach-closed (drain_waits 0 refl refl refl)

Reach-left : Reach initial left
unfolding leave
Reach-left = next Reach-waits (return_ 0 refl refl)

Reach-done : Reach initial done
Reach-done = next Reach-left (woken 0 refl refl refl)

drained_safe_example :
    (done.calls ≡ 0)
    × (done.upstream.inflight ≡ pos 0)
    × (enter done.upstream ≡ (done.upstream, refused upstream_closed))
drained_safe_example = drained_safe done Reach-done refl

waiting_woken_example : contains left.upstream.closed_channels 0 ≡ true
waiting_woken_example = waiting_woken left 0 Reach-left refl refl
