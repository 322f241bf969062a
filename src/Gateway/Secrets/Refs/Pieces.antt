-- ===== src/Gateway/Secrets/Refs/Pieces.antt =====
-- internal/gateway/secret.go: a text as plain bytes and references, against what the two loops make
-- of it.
use gooners.Base.{
  nat_beq_iff, ℕ, zero, suc, ◌≤◌, ◌<◌, ◌≡◌, refl, sym, ap, ◌∙◌, ◌⊎◌, inl, inr, true, Option, none,
  some, List, [], ◌∷◌, ◌++◌, arith, nat_eq, list_eq, Option-cases, length, length-append, All, Text,
  cut_at,
}
use Prim.{⊥}
use mathlib.Core.List.{append-nil, append_assoc}
use gooners.Gateway.Secrets.{Error}
use gooners.Gateway.Secrets.Refs.{
  Ref, parse_secret_ref, name_in, is_valid_secret_name, extract_from, extract_secret_refs,
  interpolate_from, interpolate, written, kept, outcome,
}

pub data Piece : Type 0 where
  plain : ℕ → Piece
  named : Text → Text → Piece

-- The text that the pieces were read from.
abbrev pub source : List Piece → Text
source [] = []
source (plain c ∷ ps) = c ∷ source ps
source (named name token ∷ ps) = token ++ source ps

abbrev pub names : List Piece → List Text
names [] = []
names (plain c ∷ ps) = names ps
names (named name token ∷ ps) = name ∷ names ps

-- A reference has a name of valid bytes and stands between braces.
abbrev pub IsPiece : Piece → Type 0
IsPiece (plain c) = Unit
IsPiece (named name token) =
    (is_valid_secret_name name ≡ true) × ((inner : Text) × (token ≡ b'{' ∷ (inner ++ (b'}' ∷ []))))

unfoldable pub pieces_from : ℕ → Text → List Piece
unfolding parse_secret_ref
pieces_from zero s = []
pieces_from (suc n) [] = []
pieces_from (suc n) (c ∷ s) = elim (parse_secret_ref (c ∷ s)) [
  | none ↦ plain c ∷ pieces_from n s
  | some ref ↦ named ref.name ref.token ∷ pieces_from n ref.rest
]

abbrev pub pieces : Text → List Piece
pieces s = pieces_from (length s) s

cut_at-splits : (b : ℕ) (s l r : Text) → cut_at b s ≡ some (l, r) → s ≡ l ++ (b ∷ r)
unfolding cut_at
cut_at-splits b [] l r h = cc
cut_at-splits b (c ∷ s) l r h = elim (Option-cases (cut_at b s)) [
  | inl f ↦ ground arith
  | inr ((l', r'), f) ↦ ground (arith, cut_at-splits b s l' r' f)
]

name_in-is_valid :
    (inner name : Text) → name_in inner ≡ some name → is_valid_secret_name name ≡ true
unfolding name_in
name_in-is_valid inner name h = ground arith

parsed :
    (c : ℕ) (s : Text) (ref : Ref)
    → parse_secret_ref (c ∷ s) ≡ some ref
    → (inner rest name : Text) × (c ≡ b'{')
      × (cut_at b'}' s ≡ some (inner, rest))
      × (name_in inner ≡ some name)
      × (ref ≡ record { name = name; token = c ∷ (inner ++ (b'}' ∷ [])); rest = rest })
unfolding parse_secret_ref
parsed c s ref h = elim (Option-cases (cut_at b'}' s)) [
  | inl f ↦ let no : ⊥ = ground (arith, nat_beq_iff c b'{') in elim no [ ]
  | inr ((inner, rest), f) ↦ elim (Option-cases (name_in inner)) [
    | inl g ↦ let no : ⊥ = ground (arith, nat_beq_iff c b'{') in elim no [ ]
    | inr (name, g) ↦ (
      inner,
      rest,
      name,
      ground (arith, nat_beq_iff c b'{'),
      f,
      g,
      ground (arith, nat_beq_iff c b'{'),
    )
  ]
]

pub parse_secret_ref-splits :
    (s : Text) (ref : Ref)
    → parse_secret_ref s ≡ some ref
    → (s ≡ ref.token ++ ref.rest)
      × (length ref.rest < length s)
      × IsPiece (named ref.name ref.token)
unfolding parse_secret_ref
parse_secret_ref-splits [] ref h = cc
parse_secret_ref-splits (c ∷ s) ref h =
    let (inner, rest, name, e, f, g, k) = parsed c s ref h in
    let split = cut_at-splits b'}' s inner rest f in
    let shorter = length-append inner (b'}' ∷ rest) in
    (
      rw k (ap (λ x. c ∷ x) (split ∙ sym (append_assoc inner (b'}' ∷ []) rest))),
      rw k (rw split (omega (arith, shorter))),
      rw k (name_in-is_valid inner name g, (inner, rw e refl)),
    )

-- With as much fuel as there are bytes, no piece is left out, and each is one.
pieces_from-whole :
    (n : ℕ) (s : Text)
    → length s ≤ n
    → (source (pieces_from n s) ≡ s) × All IsPiece (pieces_from n s)
unfolding pieces_from
pieces_from-whole zero [] h = (refl, tt)
pieces_from-whole zero (c ∷ s) h = let no : ⊥ = omega arith in elim no [ ]
pieces_from-whole (suc n) [] h = (refl, tt)
pieces_from-whole (suc n) (c ∷ s) h = elim (Option-cases (parse_secret_ref (c ∷ s))) [
  | inl e ↦
      let rest = pieces_from-whole n s (omega arith) in
      rw (e, pieces_from) (ap (λ x. c ∷ x) rest.0, (tt, rest.1))
  | inr (ref, e) ↦
      let (split, shorter, good) = parse_secret_ref-splits (c ∷ s) ref e in
      let rest = pieces_from-whole n ref.rest (omega (arith, shorter)) in
      rw (e, pieces_from) (ap (λ x. ref.token ++ x) rest.0 ∙ sym split, (good, rest.1))
]

extract_from-names : (n : ℕ) (s : Text) → extract_from n s ≡ names (pieces_from n s)
unfolding extract_from pieces_from
extract_from-names zero s = refl
extract_from-names (suc n) [] = refl
extract_from-names (suc n) (c ∷ s) = elim (Option-cases (parse_secret_ref (c ∷ s))) [
  | inl e ↦ rw (e, extract_from, pieces_from) (extract_from-names n s)
  | inr (ref, e) ↦
      rw (e, extract_from, pieces_from) (ap (λ x. ref.name ∷ x) (extract_from-names n ref.rest))
]

module _ {ℓ} {R : Type ℓ} (resolve : Text → R → R × (Error ⊎ Text)) where
  -- The resolver after some names, and its answers to them in turn.
  abbrev pub resolve_all : List Text → R → R × List (Error ⊎ Text)
  resolve_all [] r = (r, [])
  resolve_all (name ∷ more) r =
      let found = resolve name r in
      let rest = resolve_all more found.0 in (rest.0, found.1 ∷ rest.1)

-- The last error among some answers.
abbrev pub last_error : List (Error ⊎ Text) → Option Error → Option Error
last_error [] merr = merr
last_error (a ∷ answers) merr = last_error answers (kept a merr)

-- The pieces with an answer in the place of each reference.
abbrev pub substitute : List Piece → List (Error ⊎ Text) → Text
substitute [] answers = []
substitute (plain c ∷ ps) answers = c ∷ substitute ps answers
substitute (named name token ∷ ps) [] = token ++ substitute ps []
substitute (named name token ∷ ps) (a ∷ answers) = written a token ++ substitute ps answers

module _ {ℓ} {R : Type ℓ} (resolve : Text → R → R × (Error ⊎ Text)) where
  interpolate_from-fills :
      (n : ℕ) (s : Text) (r : R) (b : Text) (merr : Option Error)
      → interpolate_from resolve n s r b merr ≡ (
        (resolve_all resolve (names (pieces_from n s)) r).0,
        (
          b ++ substitute (pieces_from n s) (resolve_all resolve (names (pieces_from n s)) r).1,
          last_error (resolve_all resolve (names (pieces_from n s)) r).1 merr,
        ),
      )
  unfolding interpolate_from pieces_from
  interpolate_from-fills zero s r b merr = rw (append-nil b) refl
  interpolate_from-fills (suc n) [] r b merr = rw (append-nil b) refl
  interpolate_from-fills (suc n) (c ∷ s) r b merr = elim (Option-cases (parse_secret_ref (c ∷ s))) [
    | inl e ↦
        let ps = pieces_from n s in
        rw (e, interpolate_from, pieces_from)
          (interpolate_from-fills n s r (b ++ (c ∷ [])) merr
            ∙ ap
                (λ x. (
                  (resolve_all resolve (names ps) r).0,
                  (x, last_error (resolve_all resolve (names ps) r).1 merr),
                ))
                (append_assoc b (c ∷ []) (substitute ps (resolve_all resolve (names ps) r).1)))
    | inr (ref, e) ↦
        let found = resolve ref.name r in
        let ps = pieces_from n ref.rest in
        let all = resolve_all resolve (names ps) found.0 in
        rw (e, interpolate_from, pieces_from)
          (interpolate_from-fills n ref.rest found.0 (b ++ written found.1 ref.token)
              (kept found.1 merr)
            ∙ ap (λ x. (all.0, (x, last_error all.1 (kept found.1 merr))))
                (append_assoc b (written found.1 ref.token) (substitute ps all.1)))
  ]

  -- A text is cut into plain bytes and references between braces with valid names, and nothing of it is
  -- lost. Interpolate asks the resolver for just the names that extractSecretRefs yields, in that order.
  -- It gives the text with every reference replaced by its answer, or, where some answers are errors,
  -- the last of these and no text.
  pub interpolate-fills :
      (s : Text) (r : R)
      → (source (pieces s) ≡ s)
        × All IsPiece (pieces s)
        × (names (pieces s) ≡ extract_secret_refs s)
        × (interpolate resolve s r ≡ (
          (resolve_all resolve (extract_secret_refs s) r).0,
          outcome (
            substitute (pieces s) (resolve_all resolve (extract_secret_refs s) r).1,
            last_error (resolve_all resolve (extract_secret_refs s) r).1 none,
          ),
        ))
  unfolding interpolate extract_secret_refs
  interpolate-fills s r =
      let whole = pieces_from-whole (length s) s (omega arith) in
      let same = extract_from-names (length s) s in
      (
        whole.0,
        whole.1,
        sym same,
        rw same (ap (λ x. (x.0, outcome x.1)) (interpolate_from-fills (length s) s r [] none)),
      )
