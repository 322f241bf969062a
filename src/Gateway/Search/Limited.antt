-- ===== src/Gateway/Search/Limited.antt =====
-- handleSearchTools of internal/gateway/discovery.go: whether it answers, and how much.
use gooners.Base.{
  fields, ℕ, zero, suc, ◌≤◌, ◌<◌, ◌≡◌, refl, ap, ◌∙◌, inl, inr, Bool, true, Option, none, some,
  List, [], ◌∷◌, map, arith, ltb, if◌then◌else◌, nat_eq, list_eq, Option-cases, length, take, keep,
  is_some, All, Text, to_lower,
}
use gooners.Base.Map.{Map}
use gooners.Gateway.Tools.{Tool}
use gooners.Gateway.Scopes.{Gateway, resolve_tool_owner, stays, visible_tools}
use gooners.Gateway.Search.{
  SearchToolsOutput, Scored, clamp_limit, insert_scored, sort_scored, collect, output,
  handle_search_tools,
}

-- Every name of a map has an owner.
abbrev pub Owned : Gateway → Map Text Tool → Type 0
Owned g visible = All (λ (name, t). is_some (resolve_tool_owner g none name) ≡ true) visible

keep-Owned :
    (path_match : Text → Text → Bool) (g : Gateway) (token : Option (List Text)) (m : Map Text Tool)
    → Owned g (keep (λ (name, t). stays path_match g token name) m)
keep-Owned path_match g token [] = tt
keep-Owned path_match g token ((name, t) ∷ m) = ground (arith, keep-Owned path_match g token m)

collect-is_some :
    (g : Gateway) (terms : List Text) (visible : Map Text Tool)
    → Owned g visible
    → is_some (collect g terms visible) ≡ true
unfolding collect
collect-is_some g terms [] h = refl
collect-is_some g terms ((name, t) ∷ visible) h =
    ground (arith, h.0, collect-is_some g terms visible h.1)

length-insert_scored :
    (x : Scored) (ys : List Scored) → length (insert_scored x ys) ≡ suc (length ys)
unfolding insert_scored
length-insert_scored x [] = refl
length-insert_scored x (y ∷ ys) = ground (arith, length-insert_scored x ys)

length-sort_scored : (xs : List Scored) → length (sort_scored xs) ≡ length xs
unfolding sort_scored
length-sort_scored [] = refl
length-sort_scored (x ∷ xs) =
    omega (arith, length-insert_scored x (sort_scored xs), length-sort_scored xs)

length-map : (xs : List Scored) → length (map (λ m. m.match) xs) ≡ length xs
length-map [] = refl
length-map (x ∷ xs) = ap suc (length-map xs)

length-take :
    (n : ℕ) (xs : List Scored) → length (take n xs) ≡ (if ltb n (length xs) then n else length xs)
length-take zero [] = refl
length-take zero (x ∷ xs) = ground arith
length-take (suc n) [] = ground arith
length-take (suc n) (x ∷ xs) = ground (arith, length-take n xs)

-- The matches of an output: all of them, or as many as the limit.
length-output :
    (limit : ℕ) (xs : List Scored)
    → length (output limit xs).tools ≡ (if ltb limit (length xs) then limit else length xs)
unfolding output
length-output limit xs =
    length-map (take limit (sort_scored xs))
    ∙ length-take limit (sort_scored xs)
    ∙ ap (λ n. if ltb limit n then limit else n) (length-sort_scored xs)

clamp_limit-bounds : (limit : ℕ) → (0 < clamp_limit limit) × (clamp_limit limit ≤ 200)
unfolding clamp_limit
clamp_limit-bounds limit = ground arith

-- What an output of a search is, whatever limit was asked for: at most 200 matches, as many of the
-- total as the limit in force lets through, and marked as truncated just when some are missing.
pub record IsLimited (limit : ℕ) (out : SearchToolsOutput) : Type 0 where
  pub at_most : length out.tools ≤ 200
  pub fills :
      length out.tools
      ≡ (if ltb (clamp_limit limit) out.total then clamp_limit limit else out.total)
  pub marked : out.truncated ≡ ltb (length out.tools) out.total

output-IsLimited : (limit : ℕ) (xs : List Scored) → IsLimited limit (output (clamp_limit limit) xs)
output-IsLimited limit xs =
    let n = length-output (clamp_limit limit) xs in
    let b = clamp_limit-bounds limit in
    record {
      at_most = unfold output in ground (arith, n, b);
      fills = unfold output in n;
      marked = unfold output in ground (arith, n, b);
    }

-- When the registry does not change between the snapshot and the look-up of the owners, a search
-- always answers: no visible tool is without an owner, so there is no panic, for any credential,
-- query and limit, and the answer keeps the limit.
pub handle_search_tools-answers :
    (path_match : Text → Text → Bool) (g : Gateway) (token : Option (List Text)) (query : Text)
    (limit : ℕ)
    → (out : SearchToolsOutput) × (handle_search_tools path_match g g token query limit ≡ some out)
      × IsLimited limit out
handle_search_tools-answers path_match g token query limit =
    let found = collect g (fields (to_lower query)) (visible_tools path_match g token) in
    let owned : Owned g (visible_tools path_match g token) =
      unfold visible_tools in keep-Owned path_match g token g.registered_tools in
    elim (Option-cases found) [
      | inl e ↦ ground (
        arith,
        collect-is_some g (fields (to_lower query)) (visible_tools path_match g token) owned,
        e,
      )
      | inr (xs, e) ↦ (
        output (clamp_limit limit) xs,
        unfold handle_search_tools in rw e refl,
        output-IsLimited limit xs,
      )
    ]
