-- ===== src/Gateway/Secrets/Refs.antt =====
-- internal/gateway/secret.go: the references to secrets in a text. A position in a text stands as the
-- rest of the text from there on.
pub mod Pieces
pub mod Rounds
use gooners.Base.{
  ℕ, zero, suc, ◌+◌, ◌-◌, ◌*◌, ◌≤◌, ◌<◌, ◌≡◌, refl, sym, ap, ◌∙◌, ◌≢◌, ◌↔◌, ◌⊎◌, inl, inr, Bool,
  true, false, not, ◌&&◌, ◌||◌, Option, none, some, List, [], ◌∷◌, ◌++◌, map, arith, ltb, leb,
  nat_beq, if◌then◌else◌, Eq, ◌==◌, nat_eq, ==-self, list_beq, list_beq_iff, list_eq, Bool-cases,
  Sum-cases, Option-cases, length, get_elem?, take, drop, keep, is_empty, get_or, is_some, or_else,
  length-append, length-keep-le, keep-append, All, All-append, contains, count, contains-append,
  contains-keep, Text, text, to_lower, has_prefix, has_infix, has_suffix, trim_prefix,
  trim_prefix-append, is_space, fields, trim_left, trim_space, cut_at, join,
}
use gooners.Base.Map
use gooners.Base.Map.{Map}
use gooners.Gateway.Secrets.{Error, no_resolver}

abbrev pub is_name_byte : ℕ → Bool
is_name_byte b =
    leb b'A' b && leb b b'Z'
    || leb b'a' b && leb b b'z'
    || leb b'0' b && leb b b'9'
    || b == b'_'
    || b == b'.'
    || b == b'-'

abbrev pub all_bytes : (ℕ → Bool) → Text → Bool
all_bytes p [] = true
all_bytes p (c ∷ s) = p c && all_bytes p s

unfoldable pub is_valid_secret_name : Text → Bool
is_valid_secret_name s = not (is_empty s) && all_bytes is_name_byte s

-- The name in what stands between two braces.
unfoldable pub name_in : Text → Option Text
unfolding cut_at is_valid_secret_name
name_in inner = elim (cut_at b':' (trim_space inner)) [
  | none ↦ none
  | some (keyword, rest) ↦
      let n = trim_space rest in
      if trim_space keyword == text "secret" && is_valid_secret_name n then some n else none
]

-- A reference at the start of a text: its name, the bytes that it is written with, and what follows.
pub record Ref : Type 0 where
  pub name : Text
  pub token : Text
  pub rest : Text

unfoldable pub parse_secret_ref : Text → Option Ref
unfolding name_in cut_at
parse_secret_ref [] = none
parse_secret_ref (c ∷ s) = if not (c == b'{') then none else elim (cut_at b'}' s) [
  | none ↦ none
  | some (inner, rest) ↦ elim (name_in inner) [
    | none ↦ none
    | some name ↦ some (record { name = name; token = c ∷ (inner ++ (b'}' ∷ [])); rest = rest })
  ]
]

-- The loop of extractSecretRefs, on fuel.
unfoldable pub extract_from : ℕ → Text → List Text
unfolding parse_secret_ref
extract_from zero s = []
extract_from (suc n) [] = []
extract_from (suc n) (c ∷ s) = elim (parse_secret_ref (c ∷ s)) [
  | none ↦ extract_from n s
  | some ref ↦ ref.name ∷ extract_from n ref.rest
]

unfoldable pub extract_secret_refs : Text → List Text
unfolding extract_from
extract_secret_refs s = extract_from (length s) s

-- What a resolved reference adds to the text, and the error that is kept: a later one wins.
abbrev pub written : Error ⊎ Text → Text → Text
written (inr v) token = v
written (inl e) token = token

abbrev pub kept : Error ⊎ Text → Option Error → Option Error
kept (inr v) merr = merr
kept (inl e) merr = some e

abbrev pub outcome : Text × Option Error → Error ⊎ Text
outcome (b, some e) = inl e
outcome (b, none) = inr b

module _ {ℓ} {R : Type ℓ} (resolve : Text → R → R × (Error ⊎ Text)) where
  -- The loop of Interpolate, on fuel: the text so far and the error so far.
  unfoldable pub interpolate_from : ℕ → Text → R → Text → Option Error → R × (Text × Option Error)
  unfolding parse_secret_ref
  interpolate_from zero s r b merr = (r, (b, merr))
  interpolate_from (suc n) [] r b merr = (r, (b, merr))
  interpolate_from (suc n) (c ∷ s) r b merr = elim (parse_secret_ref (c ∷ s)) [
    | none ↦ interpolate_from n s r (b ++ (c ∷ [])) merr
    | some ref ↦
        let found = resolve ref.name r in
        interpolate_from n ref.rest found.0 (b ++ written found.1 ref.token) (kept found.1 merr)
  ]

  -- Interpolate with a resolver.
  unfoldable pub interpolate : Text → R → R × (Error ⊎ Text)
  unfolding interpolate_from
  interpolate s r = let done = interpolate_from (length s) s r [] none in (done.0, outcome done.1)

-- Interpolate without a resolver.
unfoldable pub interpolate_nil : Text → Error ⊎ Text
interpolate_nil s = if has_infix s (text "{secret:") then inl no_resolver else inr s
