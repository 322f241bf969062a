-- ===== src/Gateway/Secrets/Samples.antt =====
-- A secret from the environment and one written out, and texts that name them.
use gooners.Gateway.Secrets.Refs.Rounds.{Interpolates, Extracts, interpolate_from-ends}
use gooners.Base.{
  ℕ, ◌≤◌, length, ◌≡◌, refl, ◌⊎◌, inl, inr, true, false, none, List, [], ◌∷◌, if◌then◌else◌, ◌==◌,
  nat_eq, list_eq, All, Text, text,
}
use gooners.Base.Map
use gooners.Base.Map.{Map}
use gooners.Gateway.Secrets.{
  resolve_source, SecretSource, System, Resolver, Error, secret_not_found, duplicate_secret_name,
  resolve, new_secret_resolver,
}
use gooners.Gateway.Secrets.Kept.{after, resolve-last_read, Call}
use gooners.Gateway.Secrets.Refs.{
  interpolate_from, extract_secret_refs, interpolate, interpolate_nil, outcome,
}
use gooners.Gateway.Secrets.Refs.Pieces.{
  pieces, source, names, IsPiece, substitute, last_error, resolve_all, interpolate-fills,
}

abbrev env_source : SecretSource
env_source = record { value = []; env = text "TOKEN"; file = []; command = [] }

abbrev resolver : Resolver
resolver = record { sources = (text "a", env_source) ∷ []; last_good = [] }

abbrev system : Text → System
system v = record { getenv = λ s. v; read_file = λ s. none; split = λ s. none; output = λ s. none }

abbrev calls : List Call
calls = (system [], (false, text "a")) ∷ ((system (text "v\n"), (false, text "a")) ∷ [])

resolve-last_read_example :
    (resolve (system []) true (text "a") (after resolver calls)).1 ≡ inr (text "v\n")
unfolding Map.get resolve_source
resolve-last_read_example =
    resolve-last_read resolver (text "a") env_source calls (system []) true refl refl

-- A resolver that lists what it is asked for, and knows one name.
abbrev logging : Text → List Text → List Text × (Error ⊎ Text)
logging name seen =
    (name ∷ seen, if name == text "a" then inr (text "v") else inl (secret_not_found name))

interpolate-fills_example :
    (source (pieces (text "x {secret:a}")) ≡ text "x {secret:a}")
    × All IsPiece (pieces (text "x {secret:a}"))
    × (names (pieces (text "x {secret:a}")) ≡ extract_secret_refs (text "x {secret:a}"))
    × (interpolate logging (text "x {secret:a}") [] ≡ (
      (resolve_all logging (extract_secret_refs (text "x {secret:a}")) []).0,
      outcome (
        substitute
            (pieces (text "x {secret:a}"))
            (resolve_all logging (extract_secret_refs (text "x {secret:a}")) []).1,
        last_error (resolve_all logging (extract_secret_refs (text "x {secret:a}")) []).1 none,
      ),
    ))
interpolate-fills_example = interpolate-fills logging (text "x {secret:a}") []

interpolate_from-ends_example :
    ((k : ℕ) × (k ≤ length (text "x {secret:a}"))
      × Extracts (text "x {secret:a}") k (extract_secret_refs (text "x {secret:a}")))
    × ((k : ℕ) × (k ≤ length (text "x {secret:a}"))
        × Interpolates logging (text "x {secret:a}") [] [] none k (
            interpolate_from logging
              (length (text "x {secret:a}"))
              (text "x {secret:a}")
              []
              []
              none))
interpolate_from-ends_example = interpolate_from-ends logging (text "x {secret:a}") [] [] none

one_is_replaced :
    interpolate logging (text "x { secret : a }y") [] ≡ (text "a" ∷ [], inr (text "x vy"))
unfolding interpolate
one_is_replaced = refl

the_last_error :
    interpolate logging (text "{secret:b}{secret:a}{secret:c}") []
    ≡ (text "c" ∷ (text "a" ∷ (text "b" ∷ [])), inl (secret_not_found (text "c")))
unfolding interpolate
the_last_error = refl

not_a_reference : extract_secret_refs (text "{secret:} {secret:a b} {x") ≡ []
unfolding extract_secret_refs
not_a_reference = refl

-- Without a resolver, white space hides a reference that the parser reads.
hidden_without_resolver : interpolate_nil (text "{ secret:a}") ≡ inr (text "{ secret:a}")
unfolding interpolate_nil
hidden_without_resolver = refl

read_with_resolver : extract_secret_refs (text "{ secret:a}") ≡ text "a" ∷ []
unfolding extract_secret_refs
read_with_resolver = refl

a_name_twice :
    new_secret_resolver (
      record { name = text "a"; source = env_source }
      ∷ (record { name = text "a"; source = env_source } ∷ []))
    ≡ inl duplicate_secret_name
unfolding new_secret_resolver Map.get Map.put
a_name_twice = refl
