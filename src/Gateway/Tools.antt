-- ===== src/Gateway/Tools.antt =====
-- internal/gateway/upstream.go: the tools of an upstream as the gateway serves them. Patterns are
-- matched by a parameter that stands for path.Match, where an error counts as no match.
pub mod Trim
pub mod Built
mod Samples
use gooners.Base.{
  ℕ, zero, suc, ◌+◌, ◌-◌, ◌*◌, ◌≤◌, ◌<◌, ◌≡◌, refl, sym, ap, ◌∙◌, ◌≢◌, ◌↔◌, ◌⊎◌, inl, inr, Bool,
  true, false, not, ◌&&◌, ◌||◌, Option, none, some, List, [], ◌∷◌, ◌++◌, map, arith, ltb, leb,
  nat_beq, if◌then◌else◌, Eq, ◌==◌, nat_eq, ==-self, list_beq, list_beq_iff, list_eq, Bool-cases,
  Option-cases, length, get_elem?, take, drop, keep, is_empty, get_or, is_some, or_else,
  length-append, length-keep-le, keep-append, All, All-append, contains, count, contains-append,
  contains-keep, Text, text, to_lower, has_prefix, has_infix, has_suffix, trim_prefix,
  trim_prefix-append,
}
use gooners.Base.Map
use gooners.Base.Map.{Map}
use gooners.Gateway.Names.{namespace_name}

-- A tool: `schema` stands for what the gateway passes on unread (schemas, annotations and title).
pub record Tool : Type 0 where
  pub name : Text
  pub description : Text
  pub schema : ℕ

pub record ScopeConfig : Type 0 where
  pub name : Text
  pub match : List Text

pub record ToolsConfig : Type 0 where
  pub prefix : Text
  pub allow : List Text
  pub deny : List Text
  pub desc_max : ℕ
  pub lazy : Option Bool
  pub scopes : List ScopeConfig

pub record UpstreamConfig : Type 0 where
  pub name : Text
  pub tools : ToolsConfig

-- A byte of a range, as the second byte of a rune has it.
abbrev pub in_range : ℕ → ℕ → ℕ → Bool
in_range lo hi b = leb lo b && leb b hi

abbrev pub is_continuation : ℕ → Bool
is_continuation b = in_range 128 191 b

-- The second bytes that may follow a first byte of three, and of four.
abbrev pub second_of_three : ℕ → ℕ → Bool
second_of_three a b =
    if a == 224
    then in_range 160 191 b
    else if a == 237
    then in_range 128 159 b
    else is_continuation b

abbrev pub second_of_four : ℕ → ℕ → Bool
second_of_four a b =
    if a == 240
    then in_range 144 191 b
    else if a == 244
    then in_range 128 143 b
    else is_continuation b

-- The size that utf8.DecodeRuneInString gives: 1 for a byte that starts no valid rune.
unfoldable pub rune_size : Text → ℕ
rune_size [] = 0
rune_size (a ∷ b ∷ c ∷ d ∷ _) =
    if in_range 194 223 a && is_continuation b
    then 2
    else if in_range 224 239 a && (second_of_three a b && is_continuation c)
    then 3
    else if in_range 240 244 a && (second_of_four a b && (is_continuation c && is_continuation d))
    then 4
    else 1
rune_size (a ∷ b ∷ c ∷ []) =
    if in_range 194 223 a && is_continuation b
    then 2
    else if in_range 224 239 a && (second_of_three a b && is_continuation c)
    then 3
    else 1
rune_size (a ∷ b ∷ []) = if in_range 194 223 a && is_continuation b then 2 else 1
rune_size (a ∷ []) = 1

-- The loop of TrimDescription: the bytes of the whole runes that fit. The fuel is the number of bytes
-- that may still be taken, as each rune takes at least one.
unfoldable pub fitting : ℕ → ℕ → Text → Text
unfolding rune_size
fitting zero max_len s = []
fitting (suc fuel) max_len s =
    let size = rune_size s in
    let rest = fitting fuel (max_len - size) (drop size s) in
    if ltb 0 max_len && leb size max_len then take size s ++ rest else []

-- The bytes of the character that marks a cut.
abbrev pub ellipsis : Text
ellipsis = 226 ∷ 128 ∷ 166 ∷ []

-- TrimDescription
unfoldable pub trim_description : Text → ℕ → Text
unfolding fitting
trim_description s max_len =
    if max_len == 0 || leb (length s) max_len then s else fitting max_len max_len s ++ ellipsis

module _ (path_match : Text → Text → Bool) where
  abbrev pub any_match : List Text → Text → Bool
  any_match [] name = false
  any_match (p ∷ patterns) name = if path_match p name then true else any_match patterns name

  -- Upstream.allowed
  unfoldable pub allowed : ToolsConfig → Text → Bool
  allowed cfg name =
      if ltb 0 (length cfg.allow) && not (any_match cfg.allow name)
      then false
      else not (any_match cfg.deny name)

  -- Upstream.BuildTools
  unfoldable pub build_tools : ToolsConfig → List Tool → List Tool
  unfolding allowed trim_description
  build_tools cfg [] = []
  build_tools cfg (t ∷ tools) =
      let rest = build_tools cfg tools in
      if not (allowed cfg t.name)
      then rest
      else record {
        name = namespace_name cfg.prefix t.name;
        description = trim_description t.description cfg.desc_max;
        schema = t.schema;
      }
        ∷ rest
