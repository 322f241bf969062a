-- ===== src/Gateway/Config/Accepted.antt =====
-- internal/gateway/config.go and secret.go: what holds of a configuration that Validate takes.
use gooners.Gateway.Config.Distinct.{
  collisions-none, upstreams-none, IsUnshared, before-none, names, IsDistinct,
}
use gooners.Gateway.Config.Checks.{
  validate_blob, check_upstreams, check_redact, is_duration, joined_upstream, joined_auth,
  validate_config, joined_upstreams,
}
use gooners.Auth.Valid.{validate-none_iff, IsComplete}
use gooners.Base.{
  ◌≡◌, refl, ◌⊎◌, inl, inr, Bool, true, false, not, ◌||◌, List, [], ◌∷◌, ◌++◌, map, arith,
  if◌then◌else◌, nat_eq, list_eq, Bool-cases, is_empty, All, contains, Text,
}
use gooners.Base.Map
use gooners.Base.Map.{Map}
use gooners.Auth.{validate, Config, Platform}
use gooners.Gateway.Secrets.{SecretConfig, SecretSource, Resolver, add_sources, new_secret_resolver}
use gooners.Gateway.Secrets.Refs.{extract_secret_refs}
use gooners.Gateway.Config.{
  drain_timeout_invalid, auth_invalid, auth_secret_undefined, no_upstreams, GatewayConfig,
  empty_headers, secret_undefined, secret_names, undefined_in, UpstreamEntry,
  validate_route_collisions, undefined_refs, check_secrets, Invalid, fault,
}

append-none : (es fs : List Invalid) → es ++ fs ≡ [] → (es ≡ []) × (fs ≡ [])
append-none [] fs h = (refl, h)
append-none (e ∷ es) fs h = let no : ⊥ = ground (arith, h) in elim no [ ]

-- The sources that are added from secrets that passed their loop.
sources-added :
    (seen : List Text) (ss : List SecretConfig) (m : Map Text SecretSource)
    → ((n : Text) → contains seen n ≡ Map.has n m)
    → check_secrets seen ss ≡ []
    → (done : Map Text SecretSource) × (add_sources m ss ≡ inr done)
      × ((n : Text) → Map.has n done ≡ (contains (secret_names ss) n || Map.has n m))
unfolding check_secrets add_sources
sources-added seen [] m same h = (m, refl, λ n. refl)
sources-added seen (s ∷ ss) m same h =
    let rest =
      sources-added (s.name ∷ seen) ss (Map.put s.name s.source m)
        (λ n. ground (arith, same n, Map.get-put s.name n s.source m)) (ground (arith, h)) in
    (
      rest.0,
      ground (arith, h, same s.name, rest.1),
      λ n. ground (arith, rest.2 n, Map.get-put s.name n s.source m),
    )

resolver_built :
    (ss : List SecretConfig) (m : Map Text SecretSource)
    → add_sources [] ss ≡ inr m
    → new_secret_resolver ss ≡ inr (record { sources = m; last_good = [] })
unfolding new_secret_resolver
resolver_built ss m e = rw (e, new_secret_resolver) refl

-- A value's references all have a source.
abbrev pub IsKnown : Resolver → Text → Type 0
IsKnown r v = All (λ n. Map.has n r.sources ≡ true) (extract_secret_refs v)

abbrev pub AreKnown : Resolver → Map Text Text → Type 0
AreKnown r = All (λ kv. IsKnown r kv.1)

module _ (defined : List Text) (r : Resolver)
    (same : (n : Text) → Map.has n r.sources ≡ contains defined n) where
  undefined_in-none :
      (problem : Text → Invalid) (names : List Text)
      → undefined_in problem defined names ≡ []
      → All (λ n. Map.has n r.sources ≡ true) names
  undefined_in-none problem [] h = tt
  undefined_in-none problem (n ∷ names) h =
      let parts =
        append-none (fault (not (contains defined n)) (problem n))
          (undefined_in problem defined names) h in
      (ground (arith, parts.0, same n), undefined_in-none problem names parts.1)

  undefined_refs-none :
      (problem : Text → Invalid) (m : Map Text Text)
      → undefined_refs problem defined m ≡ []
      → AreKnown r m
  unfolding undefined_refs
  undefined_refs-none problem [] h = tt
  undefined_refs-none problem ((k, v) ∷ m) h =
      let parts =
        append-none (undefined_in problem defined (extract_secret_refs v))
          (undefined_refs problem defined m) h in
      (
        undefined_in-none problem (extract_secret_refs v) parts.0,
        undefined_refs-none problem m parts.1,
      )

  module _ (compiles : Text → Bool) where
    joined_upstreams-none :
        (us : List UpstreamEntry)
        → joined_upstreams compiles defined us ≡ []
        → All (λ u. AreKnown r u.env × AreKnown r u.headers) us
    unfolding joined_upstreams joined_upstream
    joined_upstreams-none [] h = tt
    joined_upstreams-none (u ∷ us) h =
        let env = undefined_refs (secret_undefined u.name) defined u.env in
        let headers = undefined_refs (secret_undefined u.name) defined u.headers in
        let others =
          empty_headers u.name u.strip_headers ++ check_redact compiles u.name u.redact in
        let parts =
          append-none (env ++ (headers ++ others)) (joined_upstreams compiles defined us) h in
        let first = append-none env (headers ++ others) parts.0 in
        let second = append-none headers others first.1 in
        (
          (
            undefined_refs-none (secret_undefined u.name) u.env first.0,
            undefined_refs-none (secret_undefined u.name) u.headers second.0,
          ),
          joined_upstreams-none us parts.1,
        )

map-none : {A B : Type 0} (f : A → B) (xs : List A) → map f xs ≡ [] → xs ≡ []
map-none f [] h = refl
map-none f (x ∷ xs) h = let no : ⊥ = ground (arith, h) in elim no [ ]

-- What the gateway needs of its configuration, with the resolver that is built from its secrets.
pub record IsUsable (os : Platform) (c : GatewayConfig) : Type 0 where
  pub distinct : IsDistinct (names c.upstreams)
  pub unshared : IsUnshared c.upstreams
  pub complete : IsComplete os c.auth
  pub resolver : Resolver
  pub built : new_secret_resolver c.secrets ≡ inr resolver
  pub known : All (λ u. AreKnown resolver u.env × AreKnown resolver u.headers) c.upstreams
  pub auth_known : (c.auth.enabled ≡ false) ⊎ IsKnown resolver c.auth.value

module _ (os : Platform) where
  auth-none :
      (defined : List Text) (r : Resolver) (a : Config)
      → ((n : Text) → Map.has n r.sources ≡ contains defined n)
      → joined_auth os defined a ≡ []
      → IsComplete os a × ((a.enabled ≡ false) ⊎ IsKnown r a.value)
  unfolding joined_auth
  auth-none defined r a same h =
      let refs = undefined_in auth_secret_undefined defined (extract_secret_refs a.value) in
      let parts =
        append-none (map auth_invalid (validate os a)) (if a.enabled then refs else []) h in
      (
        (validate-none_iff os a).0 (map-none auth_invalid (validate os a) parts.0),
        elim (Bool-cases a.enabled) [
          | inl e ↦ inr (
              undefined_in-none defined r same auth_secret_undefined (extract_secret_refs a.value)
                (ground (arith, parts.1, e)))
          | inr e ↦ inl e
        ],
      )

module _ (os : Platform) (pattern_ok compiles : Text → Bool) where
  -- In a configuration that Validate takes no two upstreams have the same name, and no two that have a
  -- route have the same one; its authentication is switched off or complete; NewSecretResolver takes
  -- its secrets, and every reference to a secret in an environment, in the headers, and in the value of
  -- the authentication where that is switched on, has a source in the resolver.
  pub validate_config-IsUsable :
      (c : GatewayConfig) → validate_config os pattern_ok compiles c ≡ [] → IsUsable os c
  unfolding validate_config Map.get
  validate_config-IsUsable c h =
      let defined = secret_names c.secrets in
      let ups = joined_upstreams compiles defined c.upstreams in
      let auth = joined_auth os defined c.auth in
      let h1 = before-none (fault (is_empty c.upstreams) no_upstreams) h in
      let h2 =
        before-none (fault (not (is_duration os c.drain_timeout)) drain_timeout_invalid) h1.1 in
      let h3 = before-none (check_upstreams os pattern_ok [] c.upstreams) h2.1 in
      let h4 = before-none (validate_route_collisions [] c.upstreams) h3.1 in
      let h5 = before-none (validate_blob os c.blob) h4.1 in
      let h6 = before-none (check_secrets [] c.secrets) h5.1 in
      let h7 = append-none ups auth (before-none (ups ++ auth) h6.1).0 in
      let added = sources-added [] c.secrets [] (λ n. refl) h6.0 in
      let r : Resolver = record { sources = added.0; last_good = [] } in
      let same : (n : Text) → Map.has n r.sources ≡ contains defined n =
        λ n. ground (arith, added.2 n) in
      let checked = auth-none os defined r c.auth same h7.1 in
      record {
        distinct = (upstreams-none os pattern_ok [] c.upstreams h3.0).1;
        unshared = (collisions-none [] c.upstreams h4.0).1;
        complete = checked.0;
        resolver = r;
        built = resolver_built c.secrets added.0 added.1;
        known = joined_upstreams-none defined r same compiles c.upstreams h7.0;
        auth_known = checked.1;
      }
