-- ===== src/Gateway/Search.antt =====
-- internal/gateway/discovery.go: search_tools over the tools that a caller can see.
pub mod Scores
pub mod Limited
mod Samples
use gooners.Base.{
  ℕ, zero, suc, ◌+◌, ◌-◌, ◌*◌, ◌≤◌, ◌<◌, ◌≡◌, refl, sym, ap, ◌∙◌, ◌≢◌, ◌↔◌, ◌⊎◌, inl, inr, Bool,
  true, false, not, ◌&&◌, ◌||◌, Option, none, some, List, [], ◌∷◌, ◌++◌, map, arith, ltb, leb,
  nat_beq, if◌then◌else◌, Eq, ◌==◌, nat_eq, ==-self, list_beq, list_beq_iff, list_eq, Bool-cases,
  Option-cases, length, get_elem?, take, drop, keep, is_empty, get_or, is_some, or_else,
  length-append, length-keep-le, keep-append, All, All-append, contains, count, contains-append,
  contains-keep, Text, text, to_lower, has_prefix, has_infix, has_suffix, trim_prefix,
  trim_prefix-append, is_space, fields, fields_from, trim_left, trim_space, cut_at, join,
}
use gooners.Base.Map
use gooners.Base.Map.{Map}
use mathlib.Core.Option
use gooners.Gateway.Names.Sort.{text_leb}
use gooners.Gateway.Tools.{Tool, ToolsConfig, UpstreamConfig, trim_description}
use gooners.Gateway.Scopes.{Gateway, resolve_tool_owner, is_lazy, visible_tools}

pub record ToolMatch : Type 0 where
  pub name : Text
  pub upstream : Text
  pub description : Text
  pub hidden : Bool

pub record SearchToolsOutput : Type 0 where
  pub tools : List ToolMatch
  pub total : ℕ
  pub truncated : Bool

pub record Scored : Type 0 where
  pub match : ToolMatch
  pub score : ℕ

-- The loop of searchScore over the terms, from the score so far.
unfoldable pub score_terms : Text → Text → ℕ → List Text → Option ℕ
score_terms name description score [] = some score
score_terms name description score (term ∷ terms) =
    if has_infix name term
    then score_terms name description score terms
    else if has_infix description term
    then score_terms name description 2 terms
    else none

abbrev pub is_exact : Text → List Text → Bool
is_exact name (term ∷ []) = name == term
is_exact name _ = false

-- searchScore, with none where it gives false.
unfoldable pub search_score : List Text → Text → Text → Option ℕ
unfolding score_terms
search_score terms name description =
    if length terms == 0
    then some 1
    else elim (score_terms (to_lower name) (to_lower description) 1 terms) [
      | none ↦ none
      | some score ↦ if is_exact (to_lower name) terms then some 0 else some score
    ]

-- The limit that handleSearchTools works with; what it is given is an int, and a negative one is
-- given as 0, which it treats in the same way.
unfoldable pub clamp_limit : ℕ → ℕ
clamp_limit limit = if limit == 0 then 20 else if ltb 200 limit then 200 else limit

abbrev pub scored_leb : Scored → Scored → Bool
scored_leb a b =
    if ltb a.score b.score then true else a.score == b.score && text_leb a.match.name b.match.name

-- slices.SortFunc, as an insertion sort: the names of the matches differ, so that there is one order.
unfoldable pub insert_scored : Scored → List Scored → List Scored
insert_scored x [] = x ∷ []
insert_scored x (y ∷ ys) = if scored_leb x y then x ∷ y ∷ ys else y ∷ insert_scored x ys

unfoldable pub sort_scored : List Scored → List Scored
unfolding insert_scored
sort_scored [] = []
sort_scored (x ∷ xs) = insert_scored x (sort_scored xs)

-- The loop over the visible tools. The gateway is the one at the time of the loop, whose registry may
-- have changed since the tools were taken from it; none stands for the panic on a missing owner.
unfoldable pub collect : Gateway → List Text → Map Text Tool → Option (List Scored)
unfolding search_score resolve_tool_owner
collect g terms [] = some []
collect g terms ((name, t) ∷ visible) =
    let rest = collect g terms visible in
    elim (search_score terms name t.description) [
      | none ↦ rest
      | some score ↦ elim (resolve_tool_owner g none name) [
        | none ↦ none
        | some (u, raw_name) ↦
            Option.map
              (λ xs.
                record {
                  match = record {
                    name = name;
                    upstream = u.name;
                    description = trim_description t.description 200;
                    hidden = is_lazy u.tools;
                  };
                  score = score;
                }
                ∷ xs)
              rest
      ]
    ]

unfoldable pub output : ℕ → List Scored → SearchToolsOutput
unfolding sort_scored
output limit matches = record {
  tools = map (λ m. m.match) (take limit (sort_scored matches));
  total = length matches;
  truncated = ltb limit (length matches);
}

-- handleSearchTools: g is the gateway when the visible tools are taken, and later is the gateway when
-- their owners are looked up.
unfoldable pub handle_search_tools :
    (Text → Text → Bool)
    → Gateway
    → Gateway
    → Option (List Text)
    → Text
    → ℕ
    → Option SearchToolsOutput
unfolding fields collect output visible_tools clamp_limit
handle_search_tools path_match g later token query limit =
    Option.map (output (clamp_limit limit))
      (collect later (fields (to_lower query)) (visible_tools path_match g token))
