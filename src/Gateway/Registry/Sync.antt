-- ===== src/Gateway/Registry/Sync.antt =====
-- What the gateway makes of one upstream's list of features: registerUpstreamPrompts of
-- internal/gateway/gateway.go, over any kind of feature. registerUpstreamResources and
-- registerUpstreamResourceTemplates differ from it in the feature and in having no prefix.
use gooners.Base.{
  ℕ, zero, suc, ◌+◌, ◌-◌, ◌*◌, ◌≤◌, ◌<◌, ◌≡◌, refl, sym, ap, ◌∙◌, ◌≢◌, ◌↔◌, ◌⊎◌, inl, inr, Bool,
  true, false, not, ◌&&◌, ◌||◌, Option, none, some, List, [], ◌∷◌, ◌++◌, map, arith, ltb, leb,
  nat_beq, if◌then◌else◌, Eq, ◌==◌, nat_eq, ==-self, list_beq, list_beq_iff, list_eq, Bool-cases,
  Option-cases, length, get_elem?, take, drop, keep, is_empty, get_or, is_some, length-append,
  length-keep-le, keep-append, All, All-append, contains, count, contains-append, contains-keep,
  Text, text, to_lower, has_prefix, has_infix, has_suffix, trim_prefix, trim_prefix-append,
}
pub mod Pointwise
pub mod Consistent
mod Samples
use gooners.Base.Map
use gooners.Base.Map.{Map}
use gooners.Gateway.Registry.{Registry, Diff, Collision, Set, diff, apply, ensure_upstream}

-- The state that registering changes: the registry, and what the MCP server serves by name.
pub record Served {ℓ} (T : Type ℓ) : Type ℓ where
  pub registry : Registry T
  pub server : Map Text T

-- `raw_name` is a feature's own name and `render` builds the feature that is served under a name.
module _ {ℓ κ} {P : Type κ} {T : Type ℓ} (raw_name : P → Text) (render : Text → P → T) where
  -- promptByFinal and rawNameByFinal; newSet has the keys of the first.
  unfoldable pub payloads_by_final : (Text → Text) → List P → Map Text T → Map Text T
  payloads_by_final final [] m = m
  payloads_by_final final (x ∷ xs) m =
      let name = final (raw_name x) in payloads_by_final final xs (Map.put name (render name x) m)

  unfoldable pub raw_by_final : (Text → Text) → List P → Map Text Text → Map Text Text
  raw_by_final final [] m = m
  raw_by_final final (x ∷ xs) m =
      raw_by_final final xs (Map.put (final (raw_name x)) (raw_name x) m)

  unfoldable pub new_set : (Text → Text) → List P → Set → Set
  new_set final [] m = m
  new_set final (x ∷ xs) m = new_set final xs (Map.put (final (raw_name x)) tt m)

module _ {ℓ} {T : Type ℓ} where
  unfoldable pub unserve : List Text → Map Text T → Map Text T
  unserve [] server = server
  unserve (name ∷ names) server = unserve names (Map.delete name server)

  -- The loop that serves the names of a list, and the loop that builds toAddOrChangeMap.
  unfoldable pub put_selected : Map Text T → List Text → Map Text T → Map Text T
  put_selected payloads [] m = m
  put_selected payloads (name ∷ names) m =
      put_selected payloads names
        (elim (Map.get name payloads) [ none ↦ m | some p ↦ Map.put name p m ])

  unfoldable pub sync :
      (Option T → T → Bool)
      → Served T
      → Text
      → Map Text T
      → Map Text Text
      → Set
      → Served T × List Collision
  sync equal s up payloads raw names =
      let (r, d) = diff equal (ensure_upstream s.registry up) up payloads raw in
      (
        record {
          registry = apply r up d.to_remove (put_selected payloads d.to_add_or_change []) names;
          server = put_selected payloads d.to_add_or_change (unserve d.to_remove s.server);
        },
        d.collisions,
      )

-- registerUpstreamPrompts, with the names as `final` gives them from the upstream's own.
module _ {ℓ κ} {P : Type κ} {T : Type ℓ} (raw_name : P → Text) (render : Text → P → T) where
  unfoldable pub register :
      (Option T → T → Bool) → (Text → Text) → Served T → Text → List P → Served T × List Collision
  register equal final s up items =
      sync equal s up (payloads_by_final raw_name render final items [])
        (raw_by_final raw_name render final items []) (new_set raw_name render final items [])
