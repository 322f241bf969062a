-- ===== src/Gateway/Tools/Samples.antt =====
-- A description with an accented letter, and an upstream that denies a tool.
use gooners.Base.{
  ◌+◌, ◌≤◌, ◌<◌, ◌≡◌, refl, Bool, none, List, [], ◌∷◌, ◌++◌, map, arith, ◌==◌, nat_eq, list_eq,
  length, drop, Text, text,
}
use gooners.Gateway.Names.{namespace_name}
use gooners.Gateway.Tools.{
  Tool, ToolsConfig, allowed, build_tools, trim_description, ellipsis, rune_size,
}
use gooners.Gateway.Tools.Trim.{Runes, trim_description-longest}
use gooners.Gateway.Tools.Built.{Built, build_tools-Built}

abbrev cafe : Text
cafe = text "caf" ++ (195 ∷ (169 ∷ text " au lait"))

trim_description-longest_example :
    (kept : Text) × (trim_description cafe 4 ≡ kept ++ ellipsis)
    × Runes kept cafe
    × (length kept ≤ 4)
    × (4 < length kept + rune_size (drop (length kept) cafe))
trim_description-longest_example = trim_description-longest cafe 4 (omega arith) (omega arith)

-- The letter of two bytes does not fit in four.
cut_before_the_letter : trim_description cafe 4 ≡ text "caf" ++ ellipsis
unfolding trim_description
cut_before_the_letter = refl

abbrev same_name : Text → Text → Bool
same_name pattern name = pattern == name

abbrev config : ToolsConfig
config = record {
  prefix = text "k8s_";
  allow = [];
  deny = text "delete" ∷ [];
  desc_max = 4;
  lazy = none;
  scopes = [];
}

abbrev raw_tools : List Tool
raw_tools =
    record { name = text "get"; description = cafe; schema = 0 }
    ∷ (record { name = text "delete"; description = []; schema = 1 } ∷ [])

build_tools-Built_example :
    Built same_name config raw_tools (build_tools same_name config raw_tools)
build_tools-Built_example = build_tools-Built same_name config raw_tools

-- The tool that is denied is left out.
one_is_denied : map (λ t. t.name) (build_tools same_name config raw_tools) ≡ text "k8s_get" ∷ []
unfolding build_tools allowed namespace_name
one_is_denied = refl
