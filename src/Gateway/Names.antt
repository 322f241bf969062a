-- ===== src/Gateway/Names.antt =====
-- internal/gateway/ns.go: the names that the gateway serves, and the collisions among them.
pub mod Sort
pub mod Owners
pub mod Detect
mod Samples
use gooners.Base.{
  ℕ, zero, suc, ◌+◌, ◌-◌, ◌*◌, ◌≤◌, ◌<◌, ◌≡◌, refl, sym, ap, ◌∙◌, ◌≢◌, ◌↔◌, ◌⊎◌, inl, inr, Bool,
  true, false, not, ◌&&◌, ◌||◌, Option, none, some, List, [], ◌∷◌, ◌++◌, map, arith, ltb, leb,
  nat_beq, if◌then◌else◌, Eq, ◌==◌, nat_eq, ==-self, list_beq, list_beq_iff, list_eq, Bool-cases,
  Option-cases, length, get_elem?, take, drop, keep, is_empty, get_or, is_some, or_else,
  length-append, length-keep-le, keep-append, All, All-append, contains, count, contains-append,
  contains-keep, Text, text, to_lower, has_prefix, has_infix, has_suffix, trim_prefix,
  trim_prefix-append,
}
use gooners.Base.Map
use gooners.Base.Map.{Map}
use gooners.Gateway.Registry.{Collision}
use Sort.{sort}

-- NamespaceName
unfoldable pub namespace_name : Text → Text → Text
namespace_name prefix tool_name = if is_empty prefix then tool_name else prefix ++ tool_name

-- The upstream and the tool that claim a name.
pub record Owner : Type 0 where
  pub upstream : Text
  pub tool : Text

pub record CollisionsError : Type 0 where
  pub kind : Text
  pub conflicts : List Collision
  pub counts : Map Text ℕ

-- prefixes[up] and toolSets[up], with Go's zero value for a missing key
abbrev pub prefix_of : Map Text Text → Text → Text
prefix_of prefixes up = get_or (Map.get up prefixes) []

abbrev pub tools_of : Map Text (List Text) → Text → List Text
tools_of tool_sets up = get_or (Map.get up tool_sets) []

abbrev pub owners_of : Text → Map Text (List Owner) → List Owner
owners_of res owners = get_or (Map.get res owners) []

-- The inner loop that fills the map owners, for one upstream.
pub add_tools : Text → Text → List Text → Map Text (List Owner) → Map Text (List Owner)
add_tools prefix up [] owners = owners
add_tools prefix up (t ∷ tools) owners =
    let res = namespace_name prefix t in
    add_tools prefix up tools
      (Map.put res (owners_of res owners ++ record { upstream = up; tool = t } ∷ []) owners)

pub add_upstreams :
    Map Text Text → Map Text (List Text) → List Text → Map Text (List Owner) → Map Text (List Owner)
add_upstreams prefixes tool_sets [] owners = owners
add_upstreams prefixes tool_sets (up ∷ names) owners =
    add_upstreams prefixes tool_sets names
      (add_tools (prefix_of prefixes up) up (tools_of tool_sets up) owners)

-- The names with more than one owner.
pub colliding : Map Text (List Owner) → List Text
colliding [] = []
colliding ((res, os) ∷ owners) =
    let rest = colliding owners in if ltb 1 (length os) then res ∷ rest else rest

pub conflict_group : Text → List Owner → List Collision
conflict_group res [] = []
conflict_group res (o ∷ os) =
    record { upstream = o.upstream; tool = o.tool; result_name = res } ∷ conflict_group res os

pub conflicts_of : Map Text (List Owner) → List Text → List Collision
unfolding conflict_group
conflicts_of owners [] = []
conflicts_of owners (res ∷ names) =
    conflict_group res (owners_of res owners) ++ conflicts_of owners names

-- How many tools each upstream in a conflict has.
pub add_counts : Map Text (List Text) → List Collision → Map Text ℕ → Map Text ℕ
add_counts tool_sets [] counts = counts
add_counts tool_sets (c ∷ conflicts) counts = add_counts tool_sets conflicts (
    if Map.has c.upstream counts
    then counts
    else Map.put c.upstream (length (tools_of tool_sets c.upstream)) counts)

pub owners_map : Map Text Text → Map Text (List Text) → Map Text (List Owner)
owners_map prefixes tool_sets = add_upstreams prefixes tool_sets (sort (Map.keys tool_sets)) []

pub detect_collisions : Text → Map Text Text → Map Text (List Text) → Option CollisionsError
detect_collisions kind prefixes tool_sets =
    let owners = owners_map prefixes tool_sets in
    let conflicts = conflicts_of owners (sort (colliding owners)) in
    if ltb 0 (length conflicts)
    then some
        (record { kind = kind; conflicts = conflicts; counts = add_counts tool_sets conflicts [] })
    else none
