-- ===== src/Gateway/Secrets/Kept.antt =====
-- internal/gateway/secret.go: the sources that a resolver starts with, and what it keeps.
use gooners.Base.{
  list_beq_sound, ◌≡◌, refl, ap, ◌∙◌, ◌⊎◌, inl, inr, Bool, false, Option, none, some, List, [], ◌∷◌,
  arith, if◌then◌else◌, ◌==◌, nat_eq, ==-self, list_eq, Bool-cases, Option-cases, Text,
}
use gooners.Base.Map
use gooners.Base.Map.{Map}
use gooners.Gateway.Secrets.{
  SecretSource, System, Resolver, Error, secret_not_found, resolve, settle, awaited,
}

-- One call of Resolve for a name: whether its context ended first, and what the system gave.
abbrev pub Call : Type 0
Call = System × (Bool × Text)

-- The resolver after some calls, the latest first.
unfoldable pub after : Resolver → List Call → Resolver
unfolding resolve
after r [] = r
after r ((sys, (done, name)) ∷ past) = (resolve sys done name (after r past)).0

settle-sources :
    (name : Text) (a : Error ⊎ Text) (r : Resolver) → (settle name a r).0.sources ≡ r.sources
unfolding settle
settle-sources name a r = ground arith

resolve-sources :
    (sys : System) (done : Bool) (name : Text) (r : Resolver)
    → (resolve sys done name r).0.sources ≡ r.sources
unfolding resolve
resolve-sources sys done name r = elim (Option-cases (Map.get name r.sources)) [
  | inl e ↦ rw (e, resolve) refl
  | inr (src, e) ↦ rw (e, resolve) (settle-sources name (awaited sys done name src) r)
]

after-sources : (r : Resolver) (past : List Call) → (after r past).sources ≡ r.sources
unfolding after
after-sources r [] = refl
after-sources r ((sys, (done, name)) ∷ past) =
    resolve-sources sys done name (after r past) ∙ after-sources r past

resolve-known :
    (sys : System) (done : Bool) (name : Text) (r : Resolver) (src : SecretSource)
    → Map.get name r.sources ≡ some src
    → resolve sys done name r ≡ settle name (awaited sys done name src) r
unfolding resolve
resolve-known sys done name r src e = rw (e, resolve) refl

resolve-unknown :
    (sys : System) (done : Bool) (name : Text) (r : Resolver)
    → Map.get name r.sources ≡ none
    → resolve sys done name r ≡ (r, inl (secret_not_found name))
unfolding resolve
resolve-unknown sys done name r e = rw (e, resolve) refl

-- What is kept for a name, when its latest reading is the answer that is given.
abbrev kept_after : Error ⊎ Text → Option Text → Option Text
kept_after (inr v) old = some v
kept_after (inl e) old = old

settle-kept :
    (name : Text) (a : Error ⊎ Text) (r : Resolver)
    → Map.get name (settle name a r).0.last_good ≡ kept_after a (Map.get name r.last_good)
unfolding settle
settle-kept name (inr v) r = ground (arith, Map.get-put name name v r.last_good, ==-self name)
settle-kept name (inl e) r = ground (arith, Option-cases (Map.get name r.last_good))

settle-other :
    (asked name : Text) (a : Error ⊎ Text) (r : Resolver)
    → asked == name ≡ false
    → Map.get name (settle asked a r).0.last_good ≡ Map.get name r.last_good
unfolding settle
settle-other asked name (inr v) r h = Map.get-put asked name v r.last_good ∙ rw h refl
settle-other asked name (inl e) r h = ground (arith, Option-cases (Map.get asked r.last_good))

resolve-other :
    (sys : System) (done : Bool) (asked name : Text) (r : Resolver)
    → asked == name ≡ false
    → Map.get name (resolve sys done asked r).0.last_good ≡ Map.get name r.last_good
resolve-other sys done asked name r h = elim (Option-cases (Map.get asked r.sources)) [
  | inl e ↦ rw (resolve-unknown sys done asked r e) refl
  | inr (src, e) ↦
      rw (resolve-known sys done asked r src e)
        (settle-other asked name (awaited sys done asked src) r h)
]

-- What the latest call for a name that read it had read.
abbrev pub last_read : Text → SecretSource → List Call → Option Text
last_read name src [] = none
last_read name src ((sys, (done, asked)) ∷ past) =
    if asked == name
    then kept_after (awaited sys done name src) (last_read name src past)
    else last_read name src past

-- The answer to a call, from what the call reads and what was read last.
abbrev pub answer : Error ⊎ Text → Option Text → Error ⊎ Text
answer (inr v) old = inr v
answer (inl e) (some v) = inr v
answer (inl e) none = inl e

settle-answer :
    (name : Text) (a : Error ⊎ Text) (r : Resolver)
    → (settle name a r).1 ≡ answer a (Map.get name r.last_good)
unfolding settle
settle-answer name (inr v) r = refl
settle-answer name (inl e) r = ground (arith, Option-cases (Map.get name r.last_good))

module _ (r : Resolver) (name : Text) (src : SecretSource) where
  after-last_good :
      (past : List Call)
      → Map.get name r.sources ≡ some src
      → Map.get name r.last_good ≡ none
      → Map.get name (after r past).last_good ≡ last_read name src past
  unfolding after
  after-last_good [] known fresh = fresh
  after-last_good ((sys, (done, asked)) ∷ past) known fresh =
      let old = after r past in
      let kept = after-last_good past known fresh in
      elim (Bool-cases (asked == name)) [
        | inl e ↦
            let same = list_beq_sound asked name e in
            let here =
              resolve-known sys done name old src
                (ap (Map.get name) (after-sources r past) ∙ known) in
            ap (λ x. Map.get name (resolve sys done x old).0.last_good) same
            ∙ (ap (λ x. Map.get name x.0.last_good) here
                ∙ (settle-kept name (awaited sys done name src) old
                    ∙ (ap (kept_after (awaited sys done name src)) kept ∙ rw e refl)))
        | inr e ↦ resolve-other sys done asked name old e ∙ (kept ∙ rw e refl)
      ]

  -- However the calls before went, a call for a name with a source gives what it reads now. Where the
  -- reading fails it gives what the latest call that could read that name had read, and the error only
  -- where no call could; calls for other names do not matter.
  pub resolve-last_read :
      (past : List Call) (sys : System) (done : Bool)
      → Map.get name r.sources ≡ some src
      → Map.get name r.last_good ≡ none
      → (resolve sys done name (after r past)).1
        ≡ answer (awaited sys done name src) (last_read name src past)
  resolve-last_read past sys done known fresh =
      let old = after r past in
      let here =
        resolve-known sys done name old src (ap (Map.get name) (after-sources r past) ∙ known) in
      ap (λ x. x.1) here
      ∙ (settle-answer name (awaited sys done name src) old
          ∙ ap (answer (awaited sys done name src)) (after-last_good past known fresh))
