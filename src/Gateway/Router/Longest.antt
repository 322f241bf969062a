-- ===== src/Gateway/Router/Longest.antt =====
-- lookupNode of internal/gateway/router/router.go, against a search for the longest route.
use native.Mathlib.Nat.{zero-add}
use gooners.Base.{
  or_else, Bool-cases, ℕ, zero, suc, ◌+◌, ◌≡◌, refl, sym, ◌∙◌, ◌&&◌, Bool, true, false, Option,
  none, some, [], ◌∷◌, arith, nat_eq, list_eq, if◌then◌else◌, Text, Option-cases, inl, inr, length,
  take,
}
use gooners.Gateway.Router.{
  Node, node, Children, children, value, is_route, child, scan, lookup_node, is_boundary,
}
use gooners.Gateway.Router.Trie.{route_at, IsSound, child-IsSound}

-- The route of exactly the first k bytes, if the path has a boundary there.
abbrev pub route_of {ℓ} : {A : Type ℓ} → (Text → Option A) → Text → ℕ → Option A
route_of f path k = if is_boundary path k then f (take k path) else none

-- Downwards from base + k, the first index with a value; the default where there is none.
abbrev pub search_down {ℓ} : {A : Type ℓ} → (ℕ → Option A) → ℕ → ℕ → Option A → Option A
search_down g base zero best = best
search_down g base (suc k) best = or_else (g (base + suc k)) (search_down g base k best)

-- The longest prefix of the path that is a route of f and ends at a boundary.
abbrev pub longest {ℓ} : {A : Type ℓ} → (Text → Option A) → Text → Option A
longest f path = search_down (route_of f path) 0 (length path) (route_of f path 0)

module _ {ℓ} {A : Type ℓ} where
  search_down-shift :
      (g : ℕ → Option A) (base k : ℕ) (best : Option A)
      → search_down g base (suc k) best ≡ search_down g (suc base) k (or_else (g (suc base)) best)
  search_down-shift g base zero best = let e : base + 1 ≡ suc base = omega arith in rw e
  search_down-shift g base (suc k) best =
      let e : base + suc (suc k) ≡ suc base + suc k = omega arith in
      rw (e, search_down-shift g base k best)

  search_down-none :
      (g : ℕ → Option A) (base k : ℕ) (best : Option A)
      → ((j : ℕ) → g (base + suc j) ≡ none)
      → search_down g base k best ≡ best
  search_down-none g base zero best h = refl
  search_down-none g base (suc k) best h = rw (h k) (search_down-none g base k best h)

  -- What a sound node contributes at a boundary.
  best_of :
      (n : Node A) (b : Bool) (best : Option A)
      → IsSound n
      → (if is_route n && b then value n else best)
        ≡ or_else (if b then route_at n [] else none) best
  unfolding IsSound route_at
  best_of (node cs none r) b best h = ground arith
  best_of (node cs (some v) r) b best h = ground arith

  route_at-cons :
      (n : Node A) (c : ℕ) (q : Text) (b : Bool) (m : Option (Node A))
      → child c (children n) ≡ m
      → (if b then route_at n (c ∷ q) else none)
        ≡ (elim m [ none ↦ none | some next ↦ if b then route_at next q else none ])
  unfolding route_at
  route_at-cons n c q true none e = rw (e, route_at)
  route_at-cons n c q true (some next) e = rw (e, route_at)
  route_at-cons n c q false none e = refl
  route_at-cons n c q false (some next) e = refl

  child_found-IsSound :
      (c : ℕ) (cs : Children A) (v : Option A) (r : Bool) (next : Node A)
      → IsSound (node cs v r)
      → child c cs ≡ some next
      → IsSound next
  unfolding IsSound
  child_found-IsSound c cs v r next s e = rw e at (child-IsSound c cs s.1)

  -- The node stands at the first i bytes, and g gives the routes below it.
  scan-search_down :
      (path rest : Text) (i : ℕ) (curr : Node A) (best : Option A) (g : ℕ → Option A)
      → IsSound curr
      → ((j k : ℕ)
          → k ≡ i + j
          → g k ≡ (if is_boundary path k then route_at curr (take j rest) else none))
      → scan path i curr best rest ≡ search_down g i (length rest) best
  unfolding scan
  scan-search_down path [] i curr best g s h = refl
  scan-search_down path (c ∷ rest) i (node cs v r) best g s h = elim (Option-cases (child c cs)) [
    | inl e ↦
        rw (e, scan)
          (sym (
            search_down-none g i (suc (length rest)) best
              λ j. h (suc j) _ refl ∙ route_at-cons (node cs v r) c _ _ none e))
    | inr (next, e) ↦
        let sound = child_found-IsSound c cs v r next s e in
        let below : (j k : ℕ)
            → k ≡ suc i + j
            → g k ≡ (if is_boundary path k then route_at next (take j rest) else none) =
          λ j k p. h (suc j) k (omega arith) ∙ route_at-cons (node cs v r) c _ _ (some next) e in
        rw (e, scan, best_of next (is_boundary path (suc i)) best sound)
          (rw (← below 0 (suc i) (omega arith)) (
            scan-search_down path rest (suc i) next (or_else (g (suc i)) best) g sound below
            ∙ sym (search_down-shift g i (length rest) best)))
  ]

  lookup_node_lem :
      (n : Node A) (path : Text)
      → lookup_node n path
        ≡ scan path 0 n (if is_route n && is_boundary path 0 then value n else none) path
  unfolding lookup_node
  lookup_node_lem n path = refl

  pub or_else-none : (o : Option A) → or_else o none ≡ o
  or_else-none none = refl
  or_else-none (some a) = refl

  -- For a sound trie the loop returns the longest route that ends at a boundary of the path.
  pub lookup_node-longest :
      (n : Node A) (path : Text) → IsSound n → lookup_node n path ≡ longest (route_at n) path
  lookup_node-longest n path s =
      lookup_node_lem n path
      ∙ (rw (best_of n (is_boundary path 0) none s, or_else-none)
          (scan-search_down path path 0 n (route_of (route_at n) path 0)
            (route_of (route_at n) path) s (λ j k p. rw (p ∙ zero-add j))))

  route_of-none :
      (f : Text → Option A) (path : Text) (k : ℕ)
      → ((p : Text) → f p ≡ none)
      → route_of f path k ≡ none
  route_of-none f path k h = elim (Bool-cases (is_boundary path k)) [
    | inl e ↦ rw e (h (take k path))
    | inr e ↦ rw e
  ]

  pub longest-none :
      (f : Text → Option A) (path : Text) → ((p : Text) → f p ≡ none) → longest f path ≡ none
  longest-none f path h =
      search_down-none (route_of f path) 0 (length path) (route_of f path 0)
        (λ j. route_of-none f path _ h)
      ∙ route_of-none f path 0 h
