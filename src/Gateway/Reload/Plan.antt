-- ===== src/Gateway/Reload/Plan.antt =====
-- internal/gateway/reload.go: which upstreams a plan adds, restarts, removes and leaves alone.
use Prim.{⊥}
use gooners.Base.{
  ◌≡◌, refl, ap, ◌∙◌, ◌⊎◌, inl, inr, Bool, true, false, not, ◌&&◌, ◌||◌, some, List, [], ◌∷◌, arith,
  ◌==◌, nat_eq, list_beq_iff, list_eq, Bool-cases, Option-cases, is_some, All, contains, Text,
}
use gooners.Base.Map
use gooners.Base.Map.{Map}
use gooners.Gateway.Secrets.{SecretConfig}
use gooners.Gateway.Secrets.Refs.{extract_secret_refs}
use gooners.Gateway.Reload.{
  Section, Config, name_of, sections_by_name, secrets_by_name, secret_kept, any_changed,
  any_value_changed, secret_refs_changed, needs_restart, plan_new, removed, plan_upstreams,
}

abbrev pub names : List Section → List Text
names [] = []
names (uc ∷ ucs) = name_of uc ∷ names ucs

has-sections_by_name :
    (ucs : List Section) (m : Map Text Section) (n : Text)
    → Map.has n (sections_by_name ucs m) ≡ (contains (names ucs) n || Map.has n m)
unfolding sections_by_name
has-sections_by_name [] m n = refl
has-sections_by_name (uc ∷ ucs) m n =
    has-sections_by_name ucs (Map.put (name_of uc) uc m) n
    ∙ ground (arith, Map.get-put (name_of uc) n uc m)

has-by_name :
    (ucs : List Section) (n : Text) → Map.has n (sections_by_name ucs []) ≡ contains (names ucs) n
unfolding Map.get
has-by_name ucs n = ground (arith, has-sections_by_name ucs [] n)

module _ (deep_equal : Section → Section → Bool) (old new : Config) where
  module _ (by_name : Map Text Section) where
    add-plan_new :
        (ucs : List Section) (n : Text)
        → contains (names (plan_new deep_equal old new by_name ucs).add) n
          ≡ (contains (names ucs) n && not (Map.has n by_name))
    unfolding plan_new
    add-plan_new [] n = refl
    add-plan_new (uc ∷ ucs) n = ground (arith, add-plan_new ucs n, list_beq_iff (name_of uc) n)

    kept-plan_new :
        (ucs : List Section) (n : Text)
        → (contains (names (plan_new deep_equal old new by_name ucs).restart) n
            || contains (plan_new deep_equal old new by_name ucs).unchanged n)
          ≡ (contains (names ucs) n && Map.has n by_name)
    unfolding plan_new
    kept-plan_new [] n = refl
    kept-plan_new (uc ∷ ucs) n = ground (arith, kept-plan_new ucs n, list_beq_iff (name_of uc) n)

names-removed :
    (seen : Map Text Section) (ucs : List Section) (n : Text)
    → contains (names (removed seen ucs)) n ≡ (contains (names ucs) n && not (Map.has n seen))
names-removed seen [] n = refl
names-removed seen (uc ∷ ucs) n =
    ground (arith, names-removed seen ucs n, list_beq_iff (name_of uc) n)

-- A section is one of a list.
abbrev pub IsAmong : Section → List Section → Type 0
IsAmong uc [] = ⊥
IsAmong uc (x ∷ xs) = (uc ≡ x) ⊎ IsAmong uc xs

-- Every reference of some values stands for the same secret in both configurations.
abbrev pub KeepsSecrets : Map Text SecretConfig → Map Text SecretConfig → Map Text Text → Type 0
KeepsSecrets old new [] = Unit
KeepsSecrets old new ((key, v) ∷ values) =
    All (λ name. secret_kept old new name ≡ true) (extract_secret_refs v)
    × KeepsSecrets old new values

any_changed-All :
    (old new : Map Text SecretConfig) (names : List Text)
    → any_changed old new names ≡ false
    → All (λ name. secret_kept old new name ≡ true) names
any_changed-All old new [] h = tt
any_changed-All old new (name ∷ names) h = elim (Bool-cases (secret_kept old new name)) [
  | inl e ↦ (e, any_changed-All old new names (ground arith))
  | inr e ↦ let no : ⊥ = ground arith in elim no [ ]
]

any_value_changed-KeepsSecrets :
    (old new : Map Text SecretConfig) (values : Map Text Text)
    → any_value_changed old new values ≡ false
    → KeepsSecrets old new values
unfolding any_value_changed
any_value_changed-KeepsSecrets old new [] h = tt
any_value_changed-KeepsSecrets old new ((key, v) ∷ values) h =
    elim (Bool-cases (any_changed old new (extract_secret_refs v))) [
      | inl e ↦ let no : ⊥ = ground (arith, e) in elim no [ ]
      | inr e ↦ (
        any_changed-All old new (extract_secret_refs v) e,
        any_value_changed-KeepsSecrets old new values (ground (arith, e)),
      )
    ]

module _ (deep_equal : Section → Section → Bool) (old new : Config) where
  -- The section that keeps its session under a name is the same as before, inherits the same redaction,
  -- and its references stand for the same secrets.
  abbrev pub IsUnchanged : Text → Section → Section → Type 0
  IsUnchanged n prev uc =
      (name_of uc ≡ n)
      × (Map.get n (sections_by_name old.upstreams []) ≡ some prev)
      × (deep_equal prev uc ≡ true)
      × ((not (is_some uc.redact) && not (old.redact == new.redact)) ≡ false)
      × KeepsSecrets (secrets_by_name old.secrets []) (secrets_by_name new.secrets []) uc.env
      × KeepsSecrets (secrets_by_name old.secrets []) (secrets_by_name new.secrets []) uc.headers

  abbrev pub Kept : List Section → Text → Type 0
  Kept ucs n = (prev uc : Section) × IsAmong uc ucs × IsUnchanged n prev uc

  Kept-step :
      (x : Section) (ucs : List Section) (ns : List Text)
      → All (Kept ucs) ns
      → All (Kept (x ∷ ucs)) ns
  Kept-step x ucs [] h = tt
  Kept-step x ucs (n ∷ ns) h =
      let (prev, uc, among, same) = h.0 in ((prev, uc, inr among, same), Kept-step x ucs ns h.1)

  needs_restart-IsUnchanged :
      (prev uc : Section)
      → Map.get (name_of uc) (sections_by_name old.upstreams []) ≡ some prev
      → needs_restart deep_equal old new prev uc ≡ false
      → IsUnchanged (name_of uc) prev uc
  unfolding secret_refs_changed
  needs_restart-IsUnchanged prev uc e h =
      let before = secrets_by_name old.secrets [] in
      let now = secrets_by_name new.secrets [] in
      (
        refl,
        e,
        ground (arith, h),
        ground (arith, h),
        any_value_changed-KeepsSecrets before now uc.env (ground (arith, h)),
        any_value_changed-KeepsSecrets before now uc.headers (ground (arith, h)),
      )

  plan_new-unchanged :
      (ucs : List Section)
      → All
          (Kept ucs)
          (plan_new deep_equal old new (sections_by_name old.upstreams []) ucs).unchanged
  unfolding plan_new
  plan_new-unchanged [] = tt
  plan_new-unchanged (uc ∷ ucs) =
      let by_name = sections_by_name old.upstreams [] in
      let rest =
        Kept-step uc ucs (plan_new deep_equal old new by_name ucs).unchanged
          (plan_new-unchanged ucs) in
      elim (Option-cases (Map.get (name_of uc) by_name)) [
        | inl e ↦ rw (e, plan_new) rest
        | inr (prev, e) ↦ elim (Bool-cases (needs_restart deep_equal old new prev uc)) [
          | inl f ↦ rw (e, plan_new) (rw (f, plan_new) rest)
          | inr f ↦
              rw (e, plan_new)
                (rw (f, plan_new)
                  ((prev, uc, inl refl, needs_restart-IsUnchanged prev uc e f), rest))
        ]
      ]

  -- A plan adds the names that only the new configuration has and removes those that only the old one
  -- has. A name that both have is restarted or left alone. A name is left alone only for a section that
  -- is the same as before, inherits the redaction that it inherited, and refers in its environment and
  -- its headers to secrets that are defined as they were.
  pub plan_upstreams-parts :
      ((n : Text)
        → (contains (names (plan_upstreams deep_equal old new).add) n
            ≡ (contains (names new.upstreams) n && not (contains (names old.upstreams) n)))
          × (contains (names (plan_upstreams deep_equal old new).remove) n
              ≡ (contains (names old.upstreams) n && not (contains (names new.upstreams) n)))
          × ((contains (names (plan_upstreams deep_equal old new).restart) n
                || contains (plan_upstreams deep_equal old new).unchanged n)
              ≡ (contains (names new.upstreams) n && contains (names old.upstreams) n)))
      × All (Kept new.upstreams) (plan_upstreams deep_equal old new).unchanged
  unfolding plan_upstreams
  plan_upstreams-parts =
      let before = sections_by_name old.upstreams [] in
      (
        (λ n.
            let known = has-by_name old.upstreams n in
            (
              add-plan_new deep_equal old new before new.upstreams n
                  ∙ ap (λ x. contains (names new.upstreams) n && not x) known,
              names-removed (sections_by_name new.upstreams []) old.upstreams n
                  ∙ ap (λ x. contains (names old.upstreams) n && not x)
                      (has-by_name new.upstreams n),
              kept-plan_new deep_equal old new before new.upstreams n
                  ∙ ap (λ x. contains (names new.upstreams) n && x) known,
            )),
        plan_new-unchanged new.upstreams,
      )
