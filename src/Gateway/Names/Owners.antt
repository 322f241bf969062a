-- ===== src/Gateway/Names/Owners.antt =====
-- What the loops of DetectCollisions collect for one name.
use gooners.Gateway.Names.Sort.{sum}
use gooners.Base.{
  ℕ, ◌+◌, ◌≡◌, refl, ◌∙◌, inl, inr, List, [], ◌∷◌, ◌++◌, arith, ltb, ◌==◌, nat_eq, ==-self,
  list_beq_iff, list_eq, Bool-cases, length, length-append, contains, count, Text,
}
use gooners.Base.Map
use gooners.Base.Map.{Map}
use gooners.Gateway.Names.{
  sort, owners_map, owners_of, tools_of, colliding, add_upstreams, add_tools, namespace_name,
  prefix_of, Owner,
}

-- The names under which an upstream's tools would be served.
abbrev pub served_names : Text → List Text → List Text
served_names prefix [] = []
served_names prefix (t ∷ tools) = namespace_name prefix t ∷ served_names prefix tools

-- How often a name would be served by an upstream.
abbrev pub served_by : Map Text Text → Map Text (List Text) → Text → Text → ℕ
served_by prefixes tool_sets res up =
    count res (served_names (prefix_of prefixes up) (tools_of tool_sets up))

length-add_tools :
    (prefix up : Text) (tools : List Text) (owners : Map Text (List Owner)) (res : Text)
    → length (owners_of res (add_tools prefix up tools owners))
      ≡ length (owners_of res owners) + count res (served_names prefix tools)
unfolding add_tools
length-add_tools prefix up [] owners res = omega arith
length-add_tools prefix up (t ∷ tools) owners res =
    let name = namespace_name prefix t in
    let os = owners_of name owners ++ record { upstream = up; tool = t } ∷ [] in
    length-add_tools prefix up tools (Map.put name os owners) res
    ∙ ground (
      arith,
      Map.get-put name res os owners,
      list_beq_iff name res,
      length-append (owners_of name owners) (record { upstream = up; tool = t } ∷ []),
    )

pub length-add_upstreams :
    (prefixes : Map Text Text) (tool_sets : Map Text (List Text)) (names : List Text)
    (owners : Map Text (List Owner)) (res : Text)
    → length (owners_of res (add_upstreams prefixes tool_sets names owners))
      ≡ length (owners_of res owners) + sum (served_by prefixes tool_sets res) names
unfolding add_upstreams
length-add_upstreams prefixes tool_sets [] owners res = omega arith
length-add_upstreams prefixes tool_sets (up ∷ names) owners res = omega (
  arith,
  length-add_upstreams prefixes tool_sets names
      (add_tools (prefix_of prefixes up) up (tools_of tool_sets up) owners) res,
  length-add_tools (prefix_of prefixes up) up (tools_of tool_sets up) owners res,
)

add_tools-IsMap :
    (prefix up : Text) (tools : List Text) (owners : Map Text (List Owner))
    → Map.IsMap owners
    → Map.IsMap (add_tools prefix up tools owners)
unfolding add_tools
add_tools-IsMap prefix up [] owners h = h
add_tools-IsMap prefix up (t ∷ tools) owners h =
    let name = namespace_name prefix t in
    let os = owners_of name owners ++ record { upstream = up; tool = t } ∷ [] in
    add_tools-IsMap prefix up tools (Map.put name os owners) (Map.put-IsMap name os owners h)

pub add_upstreams-IsMap :
    (prefixes : Map Text Text) (tool_sets : Map Text (List Text)) (names : List Text)
    (owners : Map Text (List Owner))
    → Map.IsMap owners
    → Map.IsMap (add_upstreams prefixes tool_sets names owners)
unfolding add_upstreams
add_upstreams-IsMap prefixes tool_sets [] owners h = h
add_upstreams-IsMap prefixes tool_sets (up ∷ names) owners h =
    let more = add_tools (prefix_of prefixes up) up (tools_of tool_sets up) owners in
    add_upstreams-IsMap prefixes tool_sets names more
      (add_tools-IsMap (prefix_of prefixes up) up (tools_of tool_sets up) owners h)

pub contains-colliding :
    (owners : Map Text (List Owner)) (res : Text)
    → Map.IsMap owners
    → contains (colliding owners) res ≡ ltb 1 (length (owners_of res owners))
unfolding colliding Map.get
contains-colliding [] res h = refl
contains-colliding ((name, os) ∷ owners) res h = elim (Bool-cases (name == res)) [
  | inl e ↦
      rw (← (list_beq_iff name res).0 e)
        (ground (arith, ==-self name, contains-colliding owners name h.1))
  | inr e ↦ ground (arith, contains-colliding owners res h.1)
]

pub owners_map-IsMap :
    (prefixes : Map Text Text) (tool_sets : Map Text (List Text))
    → Map.IsMap (owners_map prefixes tool_sets)
unfolding owners_map
owners_map-IsMap prefixes tool_sets =
    add_upstreams-IsMap prefixes tool_sets (sort (Map.keys tool_sets)) [] tt
