-- ===== src/Gateway/Registry/Laws.antt =====
-- What the loops of diff and apply of feature_registry.go do to one name.
use gooners.Base.{
  or_else, ◌≡◌, refl, ◌∙◌, inl, inr, Bool, true, false, not, ◌&&◌, Option, none, some, List, [],
  ◌∷◌, arith, if◌then◌else◌, ◌==◌, nat_eq, ==-self, list_beq_iff, list_eq, Bool-cases, Option-cases,
  contains, Text,
}
use gooners.Base.Map
use gooners.Base.Map.{Map}
use gooners.Gateway.Registry.{
  put_one, remove_one, Registry, Set, names_of, ensure_upstream, gone, classify, remove_all,
  put_all, is_owner, own_set,
}

module _ {ℓ} {T : Type ℓ} where
  pub contains-gone :
      (prev : Set) (payloads : Map Text T) (n : Text)
      → contains (gone prev payloads) n ≡ (Map.has n prev && not (Map.has n payloads))
  unfolding gone Map.get
  contains-gone [] payloads n = refl
  contains-gone ((name, u) ∷ prev) payloads n = elim (Bool-cases (name == n)) [
    | inl e ↦
        rw (← (list_beq_iff name n).0 e)
          (ground (arith, ==-self name, contains-gone prev payloads name))
    | inr e ↦ ground (arith, contains-gone prev payloads n)
  ]

  pub final-remove_all :
      (r : Registry T) (up : Text) (names : List Text) (n : Text)
      → Map.get n (remove_all r up names).final_to_upstream
        ≡ (if contains names n then none else Map.get n r.final_to_upstream)
  unfolding remove_all
  final-remove_all r up [] n = refl
  final-remove_all r up (x ∷ names) n =
      final-remove_all (remove_one r up x) up names n
      ∙ ground (arith, Map.get-delete x n r.final_to_upstream)

  pub registered-remove_all :
      (r : Registry T) (up : Text) (names : List Text) (n : Text)
      → Map.get n (remove_all r up names).registered
        ≡ (if contains names n then none else Map.get n r.registered)
  unfolding remove_all
  registered-remove_all r up [] n = refl
  registered-remove_all r up (x ∷ names) n =
      registered-remove_all (remove_one r up x) up names n
      ∙ ground (arith, Map.get-delete x n r.registered)

  -- What the sets of the other upstreams are.
  pub names-remove_all :
      (r : Registry T) (up : Text) (names : List Text) (other : Text)
      → (up == other) ≡ false
      → names_of (remove_all r up names) other ≡ names_of r other
  unfolding remove_all
  names-remove_all r up [] other h = refl
  names-remove_all r up (x ∷ names) other h =
      names-remove_all (remove_one r up x) up names other h
      ∙ rw (Map.get-put up other (Map.delete x (names_of r up)) r.upstream_registered, h)

  pub final-put_all :
      (r : Registry T) (up : Text) (payloads : Map Text T) (n : Text)
      → Map.get n (put_all r up payloads).final_to_upstream
        ≡ (if Map.has n payloads then some up else Map.get n r.final_to_upstream)
  unfolding put_all Map.get
  final-put_all r up [] n = refl
  final-put_all r up ((x, p) ∷ payloads) n =
      final-put_all (put_one r up x p) up payloads n
      ∙ ground (arith, Map.get-put x n up r.final_to_upstream)

  -- The payloads have each name once.
  pub registered-put_all :
      (r : Registry T) (up : Text) (payloads : Map Text T) (n : Text)
      → Map.IsMap payloads
      → Map.get n (put_all r up payloads).registered
        ≡ or_else (Map.get n payloads) (Map.get n r.registered)
  unfolding put_all Map.get
  registered-put_all r up [] n h = refl
  registered-put_all r up ((x, p) ∷ payloads) n h =
      registered-put_all (put_one r up x p) up payloads n h.1
      ∙ ground (arith, Map.get-put x n p r.registered, list_beq_iff x n)

  pub names-put_all :
      (r : Registry T) (up : Text) (payloads : Map Text T) (other : Text)
      → names_of (put_all r up payloads) other ≡ names_of r other
  unfolding put_all
  names-put_all r up [] other = refl
  names-put_all r up ((x, p) ∷ payloads) other = names-put_all (put_one r up x p) up payloads other

  pub has-own_set :
      (r : Registry T) (up : Text) (names : Set) (n : Text)
      → Map.has n (own_set r up names) ≡ (Map.has n names && is_owner r up n)
  unfolding own_set Map.get
  has-own_set r up [] n = refl
  has-own_set r up ((x, u) ∷ names) n =
      ground
        (arith, has-own_set r up names n, Map.get-put x n tt (own_set r up names), list_beq_iff x n)

  -- ensureUpstream only makes an empty set where there is none.
  pub ensure_upstream_cases {κ} :
      (P : Registry T → Type κ) (r : Registry T) (up : Text)
      → (Map.get up r.upstream_registered ≡ none
          → P (record r { upstream_registered = Map.put up [] r.upstream_registered }))
      → P r
      → P (ensure_upstream r up)
  unfolding ensure_upstream
  ensure_upstream_cases P r up fresh old = elim (Option-cases (Map.get up r.upstream_registered)) [
    | inl e ↦ rw (e, ensure_upstream) (fresh e)
    | inr (names, e) ↦ rw (e, ensure_upstream) old
  ]

  pub names-ensure_upstream :
      (r : Registry T) (up other : Text) → names_of (ensure_upstream r up) other ≡ names_of r other
  names-ensure_upstream r up other =
      ensure_upstream_cases (λ q. names_of q other ≡ names_of r other) r up
        (λ e.
          rw (Map.get-put up other [] r.upstream_registered)
            (ground (arith, e, list_beq_iff up other)))
        refl

  pub final-ensure_upstream :
      (r : Registry T) (up : Text) → (ensure_upstream r up).final_to_upstream ≡ r.final_to_upstream
  final-ensure_upstream r up =
      ensure_upstream_cases (λ q. q.final_to_upstream ≡ r.final_to_upstream) r up (λ e. refl) refl

  pub registered-ensure_upstream :
      (r : Registry T) (up : Text) → (ensure_upstream r up).registered ≡ r.registered
  registered-ensure_upstream r up =
      ensure_upstream_cases (λ q. q.registered ≡ r.registered) r up (λ e. refl) refl

  -- The names that diff adds or changes: those without an owner, and those of the upstream whose
  -- payload differs.
  abbrev pub is_due : (Option T → T → Bool) → Option Text → Text → Option T → Option T → Bool
  is_due equal owner up old none = false
  is_due equal none up old (some new) = true
  is_due equal (some o) up old (some new) = o == up && not (equal old new)

  -- One round of the loop of diff.
  contains-round :
      (equal : Option T → T → Bool) (r : Registry T) (up : Text) (raw : Map Text Text) (x : Text)
      (new : T) (payloads : Map Text T) (n : Text)
      → contains (classify equal r up raw ((x, new) ∷ payloads)).to_add_or_change n ≡ (
          if is_due equal (Map.get x r.final_to_upstream) up (Map.get x r.registered) (some new)
            && x == n
          then true
          else contains (classify equal r up raw payloads).to_add_or_change n)
  unfolding classify
  contains-round equal r up raw x new payloads n =
      elim (Option-cases (Map.get x r.final_to_upstream)) [
        | inl e ↦ rw (e, classify) (ground arith)
        | inr (o, e) ↦ rw (e, classify) (ground arith)
      ]

  pub contains-to_add :
      (equal : Option T → T → Bool) (r : Registry T) (up : Text) (raw : Map Text Text)
      (payloads : Map Text T) (n : Text)
      → Map.IsMap payloads
      → contains (classify equal r up raw payloads).to_add_or_change n
        ≡ is_due equal
            (Map.get n r.final_to_upstream)
            up
            (Map.get n r.registered)
            (Map.get n payloads)
  unfolding classify Map.get
  contains-to_add equal r up raw [] n h = refl
  contains-to_add equal r up raw ((x, new) ∷ payloads) n h =
      contains-round equal r up raw x new payloads n ∙ elim (Bool-cases (x == n)) [
        | inl e ↦
            rw (← (list_beq_iff x n).0 e)
              (ground (arith, ==-self x, contains-to_add equal r up raw payloads x h.1))
        | inr e ↦ rw e (ground (arith, contains-to_add equal r up raw payloads n h.1))
      ]
