-- ===== src/Gateway/Features/Registered.antt =====
-- registerUpstreamPrompts, registerUpstreamResources and registerUpstreamResourceTemplates.
use gooners.Base.{
  ◌≡◌, Bool, Option, none, some, List, [], ◌∷◌, ◌==◌, if◌then◌else◌, nat_eq, list_eq, is_some,
  or_else, Text,
}
use gooners.Base.Map
use gooners.Base.Map.{Map}
use gooners.Gateway.Registry.Sync.{Served}
use gooners.Gateway.Registry.Sync.Pointwise.{IsConsistent, next_owner, next_payload}

-- What is served under a name for a list of features, each served under one name: the last of them
-- with that name.
abbrev pub last_named {ℓ κ} :
    {P : Type κ} {T : Type ℓ} → (P → Text) → (Text → P → T) → List P → Text → Option T
last_named name render [] n = none
last_named name render (x ∷ items) n =
    or_else (last_named name render items n) (if name x == n then some (render n x) else none)

-- What registering features, by the names that they are served under, makes of a consistent state:
-- one that is consistent, in which a name of theirs belongs to the upstream and is served with the
-- payload, unless another upstream owns it or the upstream's old payload is taken for the same; a name
-- that the upstream no longer lists is gone, and the names of other upstreams are as they were.
pub record IsRegistered {ℓ} {T : Type ℓ} (equal : Option T → T → Bool) (up : Text)
    (listed : Text → Option T) (s q : Served T) : Type ℓ where
  pub consistent : IsConsistent q
  pub owners :
      (n : Text)
      → Map.get n q.registry.final_to_upstream
        ≡ next_owner (Map.get n s.registry.final_to_upstream) up (is_some (listed n))
  pub payloads :
      (n : Text)
      → Map.get n q.server
        ≡ next_payload equal
            (Map.get n s.registry.final_to_upstream)
            up
            (Map.get n s.registry.registered)
            (listed n)
