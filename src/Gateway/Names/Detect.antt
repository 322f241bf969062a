-- ===== src/Gateway/Names/Detect.antt =====
-- DetectCollisions of internal/gateway/ns.go, against a count of the tools for each name.
use gooners.Gateway.Names.Owners.{
  owners_map-IsMap, contains-colliding, length-add_upstreams, served_by,
}
use gooners.Gateway.Names.Sort.{contains-sort, sum-sort, sum}
use gooners.Base.{
  ℕ, ◌≤◌, ◌<◌, ◌≡◌, refl, ◌∙◌, ◌↔◌, inl, inr, ◌&&◌, ◌||◌, Option, none, some, List, [], ◌∷◌, ◌++◌,
  arith, ltb, if◌then◌else◌, ◌==◌, nat_eq, ==-self, list_beq_iff, list_eq, Option-cases, length,
  contains, Text,
}
use gooners.Base.Map
use gooners.Base.Map.{Map}
use gooners.Gateway.Names.{
  add_counts, colliding, Owner, sort, owners_of, detect_collisions, conflict_group, owners_map,
  Collision, conflicts_of, CollisionsError,
}

-- How many tools would be served under a name.
abbrev pub claims : Map Text Text → Map Text (List Text) → Text → ℕ
claims prefixes tool_sets res = sum (served_by prefixes tool_sets res) (Map.keys tool_sets)

abbrev pub result_names : List Collision → List Text
result_names [] = []
result_names (c ∷ conflicts) = c.result_name ∷ result_names conflicts

abbrev pub conflicts_in : Option CollisionsError → List Collision
conflicts_in none = []
conflicts_in (some e) = e.conflicts

length-owners_map :
    (prefixes : Map Text Text) (tool_sets : Map Text (List Text)) (res : Text)
    → length (owners_of res (owners_map prefixes tool_sets)) ≡ claims prefixes tool_sets res
unfolding owners_map Map.get
length-owners_map prefixes tool_sets res = omega (
  arith,
  length-add_upstreams prefixes tool_sets (sort (Map.keys tool_sets)) [] res,
  sum-sort (served_by prefixes tool_sets res) (Map.keys tool_sets),
)

names-conflict_group :
    (res : Text) (os : List Owner) (more : List Collision) (name : Text)
    → contains (result_names (conflict_group res os ++ more)) name
      ≡ ((ltb 0 (length os) && res == name) || contains (result_names more) name)
unfolding conflict_group
names-conflict_group res [] more name = refl
names-conflict_group res (o ∷ os) more name = ground (arith, names-conflict_group res os more name)

names-conflicts_of :
    (owners : Map Text (List Owner)) (names : List Text) (name : Text)
    → contains (result_names (conflicts_of owners names)) name
      ≡ (ltb 0 (length (owners_of name owners)) && contains names name)
unfolding conflicts_of
names-conflicts_of owners [] name = ground arith
names-conflicts_of owners (res ∷ names) name =
    names-conflict_group res (owners_of res owners) (conflicts_of owners names) name
    ∙ ground (arith, names-conflicts_of owners names name, list_beq_iff res name)

conflicts-detect_collisions :
    (kind : Text) (prefixes : Map Text Text) (tool_sets : Map Text (List Text))
    → let owners = owners_map prefixes tool_sets in
      conflicts_in (detect_collisions kind prefixes tool_sets)
      ≡ conflicts_of owners (sort (colliding owners))
unfolding detect_collisions
conflicts-detect_collisions kind prefixes tool_sets = go (
    conflicts_of (owners_map prefixes tool_sets) (sort (colliding (owners_map prefixes tool_sets))))
  where
    go :
        (cs : List Collision)
        → conflicts_in (
            if ltb 0 (length cs)
            then some (record { kind = kind; conflicts = cs; counts = add_counts tool_sets cs [] })
            else none)
          ≡ cs
    go [] = refl
    go (c ∷ cs) = ground arith

-- A name is among the conflicts just when two or more tools would be served under it, counted over
-- all upstreams and within each.
pub names-detect_collisions :
    (kind : Text) (prefixes : Map Text Text) (tool_sets : Map Text (List Text)) (name : Text)
    → contains (result_names (conflicts_in (detect_collisions kind prefixes tool_sets))) name
      ≡ ltb 1 (claims prefixes tool_sets name)
names-detect_collisions kind prefixes tool_sets name =
    let owners = owners_map prefixes tool_sets in
    rw (conflicts-detect_collisions kind prefixes tool_sets) (
      ground (
        arith,
        names-conflicts_of owners (sort (colliding owners)) name,
        contains-sort (colliding owners) name,
        contains-colliding owners name (owners_map-IsMap prefixes tool_sets),
        length-owners_map prefixes tool_sets name,
      ))

detect_collisions-some :
    (kind : Text) (prefixes : Map Text Text) (tool_sets : Map Text (List Text))
    (e : CollisionsError)
    → detect_collisions kind prefixes tool_sets ≡ some e
    → 0 < length e.conflicts
unfolding detect_collisions
detect_collisions-some kind prefixes tool_sets e h = ground arith

no_conflicts :
    (conflicts : List Collision) (claim : Text → ℕ)
    → ((name : Text) → contains (result_names conflicts) name ≡ ltb 1 (claim name))
    → ((name : Text) → claim name ≤ 1)
    → length conflicts ≡ 0
no_conflicts [] claim named few = refl
no_conflicts (c ∷ conflicts) claim named few =
    absurd (ground (arith, named c.result_name, few c.result_name, ==-self c.result_name))

-- DetectCollisions finds nothing just when no two tools would be served under one name.
detect_collisions-none_iff :
    (kind : Text) (prefixes : Map Text Text) (tool_sets : Map Text (List Text))
    → (detect_collisions kind prefixes tool_sets ≡ none)
      ↔ ((name : Text) → claims prefixes tool_sets name ≤ 1)
detect_collisions-none_iff kind prefixes tool_sets = (
  λ e name. ground (arith, names-detect_collisions kind prefixes tool_sets name, e),
  λ few. elim (Option-cases (detect_collisions kind prefixes tool_sets)) [
    | inl e ↦ e
    | inr (e, found) ↦ absurd (
        ground (
          arith,
          detect_collisions-some kind prefixes tool_sets e found,
          no_conflicts e.conflicts (claims prefixes tool_sets)
              (λ name. rw found at (names-detect_collisions kind prefixes tool_sets name)) few,
        ))
  ],
)
