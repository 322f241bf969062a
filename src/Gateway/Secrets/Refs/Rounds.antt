-- ===== src/Gateway/Secrets/Refs/Rounds.antt =====
-- internal/gateway/secret.go: the loops over a text as relations without fuel, and that they end.
use gooners.Base.{
  ℕ, zero, suc, ◌≤◌, ◌≡◌, ◌⊎◌, inl, inr, Option, none, some, List, [], ◌∷◌, ◌++◌, arith, nat_eq,
  list_eq, Option-cases, length, Text,
}
use gooners.Gateway.Secrets.{Error}
use gooners.Gateway.Secrets.Refs.{
  Ref, extract_from, extract_secret_refs, interpolate_from, kept, parse_secret_ref, written,
}
use gooners.Gateway.Secrets.Refs.Pieces.{parse_secret_ref-splits}

-- The loop of extractSecretRefs from a position on: the rounds that it takes, and the names.
pub data Extracts : Text → ℕ → List Text → Type 0 where
  at_end : Extracts [] 0 []
  skip :
      {c : ℕ} {s : Text} {k : ℕ} {names : List Text}
      → parse_secret_ref (c ∷ s) ≡ none
      → Extracts s k names
      → Extracts (c ∷ s) (suc k) names
  take_ref :
      (ref : Ref) {c : ℕ} {s : Text} {k : ℕ} {names : List Text}
      → parse_secret_ref (c ∷ s) ≡ some ref
      → Extracts ref.rest k names
      → Extracts (c ∷ s) (suc k) (ref.name ∷ names)

extract_from-Extracts :
    (n : ℕ) (s : Text) → length s ≤ n → (k : ℕ) × (k ≤ length s) × Extracts s k (extract_from n s)
unfolding extract_from
extract_from-Extracts zero [] h = (0, omega arith, at_end)
extract_from-Extracts zero (c ∷ s) h = let no : ⊥ = omega (arith, h) in elim no [ ]
extract_from-Extracts (suc n) [] h = (0, omega arith, at_end)
extract_from-Extracts (suc n) (c ∷ s) h = elim (Option-cases (parse_secret_ref (c ∷ s))) [
  | inl e ↦
      let (k, le, loop) = extract_from-Extracts n s (omega (arith, h)) in
      rw (e, extract_from) (suc k, omega (arith, le), skip e loop)
  | inr (ref, e) ↦
      let shorter = (parse_secret_ref-splits (c ∷ s) ref e).1 in
      let (k, le, loop) = extract_from-Extracts n ref.rest (omega (arith, h, shorter)) in
      rw (e, extract_from) (suc k, omega (arith, le, shorter), take_ref ref e loop)
]

module _ {ℓ} {R : Type ℓ} (resolve : Text → R → R × (Error ⊎ Text)) where
  -- The loop of Interpolate from a position on, with the resolver, the text and the error so far: the
  -- rounds that it takes, and what it leaves.
  pub data Interpolates
      : Text → R → Text → Option Error → ℕ → R × (Text × Option Error) → Type ℓ where
    ended : {r : R} {b : Text} {merr : Option Error} → Interpolates [] r b merr 0 (r, (b, merr))
    copy :
        {c : ℕ} {s : Text} {r : R} {b : Text} {merr : Option Error} {k : ℕ}
        {done : R × (Text × Option Error)}
        → parse_secret_ref (c ∷ s) ≡ none
        → Interpolates s r (b ++ (c ∷ [])) merr k done
        → Interpolates (c ∷ s) r b merr (suc k) done
    fill :
        (ref : Ref) {c : ℕ} {s : Text} {r : R} {b : Text} {merr : Option Error} {k : ℕ}
        {done : R × (Text × Option Error)}
        → parse_secret_ref (c ∷ s) ≡ some ref
        → Interpolates ref.rest
            (resolve ref.name r).0
            (b ++ written (resolve ref.name r).1 ref.token)
            (kept (resolve ref.name r).1 merr)
            k
            done
        → Interpolates (c ∷ s) r b merr (suc k) done

  interpolate_from-Interpolates :
      (n : ℕ) (s : Text) (r : R) (b : Text) (merr : Option Error)
      → length s ≤ n
      → (k : ℕ) × (k ≤ length s) × Interpolates s r b merr k (interpolate_from resolve n s r b merr)
  unfolding interpolate_from
  interpolate_from-Interpolates zero [] r b merr h = (0, omega arith, ended)
  interpolate_from-Interpolates zero (c ∷ s) r b merr h =
      let no : ⊥ = omega (arith, h) in elim no [ ]
  interpolate_from-Interpolates (suc n) [] r b merr h = (0, omega arith, ended)
  interpolate_from-Interpolates (suc n) (c ∷ s) r b merr h =
      elim (Option-cases (parse_secret_ref (c ∷ s))) [
        | inl e ↦
            let (k, le, loop) =
              interpolate_from-Interpolates n s r (b ++ (c ∷ [])) merr (omega (arith, h)) in
            rw (e, interpolate_from) (suc k, omega (arith, le), copy e loop)
        | inr (ref, e) ↦
            let shorter = (parse_secret_ref-splits (c ∷ s) ref e).1 in
            let found = resolve ref.name r in
            let (k, le, loop) =
              interpolate_from-Interpolates n ref.rest found.0 (b ++ written found.1 ref.token)
                (kept found.1 merr) (omega (arith, h, shorter)) in
            rw (e, interpolate_from) (suc k, omega (arith, le, shorter), fill ref e loop)
      ]

  -- The loops of extractSecretRefs and Interpolate, which go on behind the byte or the reference that
  -- they are at, come to the end of any text in at most as many rounds as it has bytes, whatever the
  -- resolver answers, and leave what extract_secret_refs and interpolate_from give.
  pub interpolate_from-ends :
      (s : Text) (r : R) (b : Text) (merr : Option Error)
      → ((k : ℕ) × (k ≤ length s) × Extracts s k (extract_secret_refs s))
        × ((k : ℕ) × (k ≤ length s)
            × Interpolates s r b merr k (interpolate_from resolve (length s) s r b merr))
  unfolding extract_secret_refs
  interpolate_from-ends s r b merr = (
    extract_from-Extracts (length s) s (omega arith),
    interpolate_from-Interpolates (length s) s r b merr (omega arith),
  )
