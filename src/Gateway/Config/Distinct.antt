-- ===== src/Gateway/Config/Distinct.antt =====
-- internal/gateway/config.go: the names and the routes of upstreams that pass their checks.
use gooners.Gateway.Config.Checks.{check_upstream, check_upstreams}
use gooners.Base.{
  ◌≡◌, refl, ◌⊎◌, inl, inr, Bool, true, false, ◌&&◌, List, [], ◌∷◌, arith, nat_eq, list_beq_iff,
  list_eq, Bool-cases, is_empty, All, contains, Text,
}
use gooners.Auth.{Platform}
use gooners.Gateway.Config.{
  same_route, route_seen, UpstreamEntry, RouteConfig, validate_route_collisions, Invalid, before,
}

pub before-none :
    (es : List Invalid) {fs : List Invalid} → before es fs ≡ [] → (es ≡ []) × (fs ≡ [])
before-none [] h = (refl, h)
before-none (e ∷ es) h = let no : ⊥ = ground (arith, h) in elim no [ ]

-- No name stands twice.
abbrev pub IsDistinct : List Text → Type 0
IsDistinct [] = Unit
IsDistinct (n ∷ ns) = (contains ns n ≡ false) × IsDistinct ns

abbrev pub names : List UpstreamEntry → List Text
names [] = []
names (u ∷ us) = u.name ∷ names us

fresh_split :
    (x : Text) (seen ns : List Text)
    → All (λ n. contains (x ∷ seen) n ≡ false) ns
    → (contains ns x ≡ false) × All (λ n. contains seen n ≡ false) ns
fresh_split x seen [] h = (refl, tt)
fresh_split x seen (n ∷ ns) (h, hs) =
    let rest = fresh_split x seen ns hs in
    (ground (arith, h, rest.0, list_beq_iff x n, list_beq_iff n x), (ground (arith, h), rest.1))

-- Two upstreams that both have a route have different ones.
abbrev pub is_bare : UpstreamEntry → Bool
is_bare u = is_empty u.route.host && is_empty u.route.path

abbrev pub IsUnshared : List UpstreamEntry → Type 0
IsUnshared [] = Unit
IsUnshared (u ∷ us) =
    ((is_bare u ≡ true) ⊎ All (λ v. (is_bare v ≡ true) ⊎ (same_route u.route v.route ≡ false)) us)
    × IsUnshared us

route_split :
    (r : RouteConfig) (seen : List RouteConfig) (us : List UpstreamEntry)
    → All (λ v. (is_bare v ≡ true) ⊎ (route_seen (r ∷ seen) v.route ≡ false)) us
    → All (λ v. (is_bare v ≡ true) ⊎ (same_route r v.route ≡ false)) us
      × All (λ v. (is_bare v ≡ true) ⊎ (route_seen seen v.route ≡ false)) us
route_split r seen [] h = (tt, tt)
route_split r seen (v ∷ us) (h, hs) =
    let rest = route_split r seen us hs in
    ((ground (arith, h), rest.0), (ground (arith, h), rest.1))

pub collisions-none :
    (seen : List RouteConfig) (us : List UpstreamEntry)
    → validate_route_collisions seen us ≡ []
    → All (λ v. (is_bare v ≡ true) ⊎ (route_seen seen v.route ≡ false)) us × IsUnshared us
unfolding validate_route_collisions
collisions-none seen [] h = (tt, tt)
collisions-none seen (u ∷ us) h = elim (Bool-cases (is_bare u)) [
  | inl e ↦
      let rest = collisions-none seen us (ground (arith, h, e)) in
      ((inl e, rest.0), (inl e, rest.1))
  | inr e ↦
      let rest = collisions-none (u.route ∷ seen) us (ground (arith, h, e)) in
      let parts = route_split u.route seen us rest.0 in
      ((inr (ground (arith, h, e)), parts.1), (inr parts.0, rest.1))
]

module _ (os : Platform) (pattern_ok : Text → Bool) where
  pub upstreams-none :
      (seen : List Text) (us : List UpstreamEntry)
      → check_upstreams os pattern_ok seen us ≡ []
      → All (λ n. contains seen n ≡ false) (names us) × IsDistinct (names us)
  unfolding check_upstreams
  upstreams-none seen [] h = (tt, tt)
  upstreams-none seen (u ∷ us) h =
      let first = check_upstream os pattern_ok u in
      let others = check_upstreams os pattern_ok (u.name ∷ seen) us in
      let passed : before first others ≡ [] = ground (arith, h) in
      let rest = upstreams-none (u.name ∷ seen) us (before-none first passed).1 in
      let parts = fresh_split u.name seen (names us) rest.0 in
      ((ground (arith, h), parts.1), (parts.0, rest.1))
