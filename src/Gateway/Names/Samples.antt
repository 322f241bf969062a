-- ===== src/Gateway/Names/Samples.antt =====
-- DetectCollisions at two upstreams.
use gooners.Gateway.Names.Sort.{sort}
use gooners.Gateway.Names.Detect.{names-detect_collisions, conflicts_in, result_names}
use gooners.Gateway.Names.{
  add_counts, conflicts_of, colliding, add_tools, add_upstreams, owners_map, namespace_name,
  detect_collisions,
}
use gooners.Base.{◌≡◌, refl, false, List, [], ◌∷◌, nat_eq, list_eq, contains, Text, text}
use gooners.Base.Map
use gooners.Base.Map.{Map}

abbrev prefixes : Map Text Text
prefixes = (text "a", text "x_") ∷ (text "b", []) ∷ []

abbrev tool_sets : Map Text (List Text)
tool_sets = (text "b", text "x_get" ∷ text "put" ∷ []) ∷ (text "a", text "get" ∷ []) ∷ []

-- The prefix of a makes its tool get collide with the tool x_get of b.
reported :
    conflicts_in (detect_collisions (text "tool") prefixes tool_sets)
    ≡ record { upstream = text "a"; tool = text "get"; result_name = text "x_get" }
      ∷ record { upstream = text "b"; tool = text "x_get"; result_name = text "x_get" }
      ∷ []
unfolding detect_collisions owners_map add_upstreams add_tools colliding conflicts_of add_counts
    sort namespace_name Map.get Map.put
reported = refl

names-detect_collisions_example :
    contains
      (result_names (conflicts_in (detect_collisions (text "tool") prefixes tool_sets)))
      (text "put")
    ≡ false
unfolding namespace_name Map.get
names-detect_collisions_example =
    names-detect_collisions (text "tool") prefixes tool_sets (text "put")
