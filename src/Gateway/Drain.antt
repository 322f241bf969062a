-- ===== src/Gateway/Drain.antt =====
-- internal/gateway/drain.go, with the parts of Connect and Close in internal/gateway/upstream.go that
-- change the same fields: claims on an upstream's session, and closing it. Each function is one
-- critical section under u.mu. A channel is a number, and closing it puts the number on a list.
pub mod Steps
pub mod Invariant
pub mod Safety
mod Samples
use gooners.Base.{
  ℕ, zero, suc, ◌+◌, ◌-◌, ◌*◌, ◌≤◌, ◌<◌, ◌≡◌, refl, sym, ap, ◌∙◌, ◌≢◌, ◌↔◌, ◌⊎◌, inl, inr, Bool,
  true, false, not, ◌&&◌, ◌||◌, Option, none, some, List, [], ◌∷◌, ◌++◌, map, arith, ltb, leb,
  nat_beq, if◌then◌else◌, Eq, ◌==◌, nat_eq, ==-self, list_beq, list_beq_iff, list_eq, Bool-cases,
  Option-cases, length, get_elem?, take, drop, keep, is_empty, get_or, is_some, or_else,
  length-append, length-keep-le, keep-append, All, All-append, contains, count, contains-append,
  contains-keep, Text, text, to_lower, has_prefix, has_infix, has_suffix, trim_prefix,
  trim_prefix-append,
}
use gooners.Base.Map
use gooners.Base.Map.{Map}

-- Go's int, as far as it is counted up and down here; negsuc n is -(n + 1).
pub data ℤ : Type 0 where
  pos : ℕ → ℤ
  negsuc : ℕ → ℤ

abbrev pub increment : ℤ → ℤ
increment (pos n) = pos (suc n)
increment (negsuc zero) = pos 0
increment (negsuc (suc n)) = negsuc n

abbrev pub decrement : ℤ → ℤ
decrement (pos zero) = negsuc 0
decrement (pos (suc n)) = pos n
decrement (negsuc n) = negsuc (suc n)

abbrev pub is_zero : ℤ → Bool
is_zero (pos zero) = true
is_zero (pos (suc n)) = false
is_zero (negsuc n) = false

-- The fields of Upstream that mu guards. `closed_channels` and `channels` stand for the runtime: the
-- channels that were closed, and how many were made.
pub record Upstream : Type 0 where
  pub closed : Bool
  pub session : Option ℕ
  pub inflight : ℤ
  pub drained : Option ℕ
  pub closed_channels : List ℕ
  pub channels : ℕ

pub data Refusal : Type 0 where
  upstream_closed not_connected : Refusal

pub data Claim : Type 0 where
  claimed : ℕ → Claim
  refused : Refusal → Claim

pub enter : Upstream → Upstream × Claim
enter u = if u.closed then (u, refused upstream_closed) else elim u.session [
  | none ↦ (u, refused not_connected)
  | some session ↦ (record u { inflight = increment u.inflight }, claimed session)
]

-- leave, from the count that it leaves behind.
wake : Upstream → Upstream
wake u = elim u.drained [
  | none ↦ u
  | some ch ↦ record u { closed_channels = ch ∷ u.closed_channels; drained = none }
]

pub leave : Upstream → Upstream
unfolding wake
leave u =
    let u' = record u { inflight = decrement u.inflight } in
    if is_zero u'.inflight then wake u' else u'

-- What drain does under the lock: it has an answer at once, or a channel to wait for.
pub data Wait : Type 0 where
  at_once : Bool → Wait
  on : ℕ → Wait

pub drain : Bool → Upstream → Upstream × Wait
drain negative_timeout u =
    if negative_timeout
    then (u, at_once true)
    else if is_zero u.inflight
    then (u, at_once true)
    else elim u.drained [
      | some ch ↦ (u, on ch)
      | none ↦ (record u { drained = some u.channels; channels = suc u.channels }, on u.channels)
    ]

-- The first critical section of Close: whether this call is the one that closes.
pub start_close : Upstream → Upstream × Bool
start_close u = if u.closed then (u, false) else (record u { closed = true }, true)

-- closeSessionResources under the lock.
pub close_session : Upstream → Upstream
close_session u = record u { session = none }

-- The last critical section of connectOnce, with the session that was just made.
pub install : ℕ → Upstream → Upstream × Bool
install session u = if u.closed then (u, false) else (record u { session = some session }, true)
