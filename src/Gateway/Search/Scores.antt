-- ===== src/Gateway/Search/Scores.antt =====
-- searchScore of internal/gateway/discovery.go, without its loop.
use gooners.Base.{
  list_beq_iff, ◌==◌, ℕ, ◌≡◌, refl, Bool, true, ◌&&◌, ◌||◌, none, some, List, [], ◌∷◌, arith,
  if◌then◌else◌, nat_eq, list_eq, Text, to_lower, has_infix,
}
use gooners.Gateway.Search.{score_terms, search_score, is_exact}

abbrev pub all_terms : (Text → Bool) → List Text → Bool
all_terms p [] = true
all_terms p (t ∷ ts) = p t && all_terms p ts

score_terms_lem :
    (name description : Text) (score : ℕ) (terms : List Text)
    → score_terms name description score terms ≡ (
        if all_terms (λ t. has_infix name t || has_infix description t) terms
        then some (if all_terms (has_infix name) terms then score else 2)
        else none)
unfolding score_terms
score_terms_lem name description score [] = refl
score_terms_lem name description score (t ∷ ts) =
    ground (arith, score_terms_lem name description score ts, score_terms_lem name description 2 ts)

is_exact-alone : (name : Text) (terms : List Text) → is_exact name terms ≡ (terms == (name ∷ []))
is_exact-alone name [] = refl
is_exact-alone name (t ∷ []) = ground (arith, list_beq_iff name t, list_beq_iff t name)
is_exact-alone name (t ∷ u ∷ ts) = ground arith

-- A tool matches when every term, as it is given, occurs in the name or in the description with their
-- letters in lower case. The score is 0 when the terms are the lowered name alone, 1 when the lowered
-- name has every term or there is no term, and 2 when the description is needed.
pub search_score_lem :
    (terms : List Text) (name description : Text)
    → search_score terms name description ≡ (
        if all_terms (λ t. has_infix (to_lower name) t || has_infix (to_lower description) t) terms
        then some (
            if terms == (to_lower name ∷ [])
            then 0
            else if all_terms (has_infix (to_lower name)) terms
            then 1
            else 2)
        else none)
unfolding search_score
search_score_lem [] name description = ground arith
search_score_lem (t ∷ ts) name description =
    rw (← (is_exact-alone (to_lower name) (t ∷ ts)))
      (ground (arith, score_terms_lem (to_lower name) (to_lower description) 1 (t ∷ ts)))
