-- ===== src/Gateway/Registry.antt =====
-- internal/gateway/feature_registry.go: which upstream owns each name that the gateway serves. The
-- three maps are one record; a set is a map to the unit type. The order in which a range statement
-- visits a map shows only in the order of the lists that diff returns.
pub mod Laws
pub mod Whole
pub mod Sync
use gooners.Base.{
  ◌≡◌, Bool, true, false, not, ◌&&◌, Option, none, some, List, [], ◌∷◌, ◌==◌, nat_eq, list_eq,
  if◌then◌else◌, get_or, contains, Text,
}
use gooners.Base.Map
use gooners.Base.Map.{Map}

-- A name that two upstreams claim: who holds it, under which name of its own, and the name itself.
pub record Collision : Type 0 where
  pub upstream : Text
  pub tool : Text
  pub result_name : Text

abbrev pub Set : Type 0
Set = Map Text (Unit {0})

pub record Registry {ℓ} (T : Type ℓ) : Type ℓ where
  pub final_to_upstream : Map Text Text
  pub upstream_registered : Map Text Set
  pub registered : Map Text T

pub record Diff : Type 0 where
  pub to_remove : List Text
  pub to_add_or_change : List Text
  pub collisions : List Collision

-- An entry of finalToUpstream is there and names the upstream.
abbrev pub owns : Option Text → Text → Bool
owns none up = false
owns (some owner) up = owner == up

module _ {ℓ} {T : Type ℓ} where
  unfoldable pub new_feature_registry : Registry T
  new_feature_registry = record {
    final_to_upstream = [];
    upstream_registered = [];
    registered = [];
  }

  -- upstreamRegistered[up], where a missing key is a nil map
  abbrev pub names_of : Registry T → Text → Set
  names_of r up = get_or (Map.get up r.upstream_registered) []

  unfoldable pub ensure_upstream : Registry T → Text → Registry T
  ensure_upstream r up = elim (Map.get up r.upstream_registered) [
    | none ↦ record r { upstream_registered = Map.put up [] r.upstream_registered }
    | some names ↦ r
  ]

  -- The first loop of diff: what was registered and is not in the new payloads.
  unfoldable pub gone : Set → Map Text T → List Text
  gone [] payloads = []
  gone ((name, _) ∷ prev) payloads =
      let rest = gone prev payloads in if Map.has name payloads then rest else name ∷ rest

  -- The second loop of diff. `equal` is told of a missing payload by `none`, Go's zero value. `raw`
  -- gives an upstream's own name of a final name, where it is known.
  unfoldable pub classify :
      (Option T → T → Bool) → Registry T → Text → Map Text Text → Map Text T → Diff
  classify equal r up raw [] = record { to_remove = []; to_add_or_change = []; collisions = [] }
  classify equal r up raw ((name, new) ∷ payloads) =
      let rest = classify equal r up raw payloads in
      let added = record rest { to_add_or_change = name ∷ rest.to_add_or_change } in
      elim (Map.get name r.final_to_upstream) [
        | none ↦ added
        | some owner ↦
            if not (owner == up)
            then record rest {
              collisions =
                  record {
                    upstream = owner;
                    tool = get_or (Map.get name raw) name;
                    result_name = name;
                  }
                  ∷ rest.collisions;
            }
            else if not (equal (Map.get name r.registered) new)
            then added
            else rest
      ]

  -- diff also makes sure that the upstream has a set, as its caller has done before.
  unfoldable pub diff :
      (Option T → T → Bool) → Registry T → Text → Map Text T → Map Text Text → Registry T × Diff
  diff equal r up payloads raw =
      let r' = ensure_upstream r up in
      let d = classify equal r' up raw payloads in
      (r', record d { to_remove = gone (names_of r' up) payloads })

  -- The three loops of apply, and a round of the first two.
  unfoldable pub remove_one : Registry T → Text → Text → Registry T
  remove_one r up name = record {
    final_to_upstream = Map.delete name r.final_to_upstream;
    upstream_registered = Map.put up (Map.delete name (names_of r up)) r.upstream_registered;
    registered = Map.delete name r.registered;
  }

  unfoldable pub remove_all : Registry T → Text → List Text → Registry T
  unfolding remove_one
  remove_all r up [] = r
  remove_all r up (name ∷ names) = remove_all (remove_one r up name) up names

  unfoldable pub put_one : Registry T → Text → Text → T → Registry T
  put_one r up name p = record r {
    final_to_upstream = Map.put name up r.final_to_upstream;
    registered = Map.put name p r.registered;
  }

  unfoldable pub put_all : Registry T → Text → Map Text T → Registry T
  unfolding put_one
  put_all r up [] = r
  put_all r up ((name, p) ∷ payloads) = put_all (put_one r up name p) up payloads

  abbrev pub is_owner : Registry T → Text → Text → Bool
  is_owner r up name = owns (Map.get name r.final_to_upstream) up

  unfoldable pub own_set : Registry T → Text → Set → Set
  own_set r up [] = []
  own_set r up ((name, _) ∷ names) =
      let rest = own_set r up names in if is_owner r up name then Map.put name tt rest else rest

  unfoldable pub apply : Registry T → Text → List Text → Map Text T → Set → Registry T
  apply r up to_remove payloads new_set =
      let r' = put_all (remove_all (ensure_upstream r up) up to_remove) up payloads in
      record r' { upstream_registered = Map.put up (own_set r' up new_set) r'.upstream_registered }
