-- ===== src/Gateway/Router/Trie.antt =====
-- What a trie of router.go holds: the value at each exact path, whatever the shape of the trie.
use gooners.Base.{
  ℕ, ◌≡◌, refl, Bool, Option, none, some, [], ◌∷◌, arith, ◌==◌, nat_eq, list_eq, if◌then◌else◌,
  get_or, is_some, Text, Option-cases, inl, inr,
}
use gooners.Gateway.Router.{
  Node, node, Children, nil, cons, children, value, is_route, new_node, child, set_child, add_node,
}

module _ {ℓ} {A : Type ℓ} where
  -- The value that stands at a path, if a route ends there.
  unfoldable pub route_at : Node A → Text → Option A
  route_at n [] = if is_route n then value n else none
  route_at n (c ∷ path) = elim (child c (children n)) [ none ↦ none | some m ↦ route_at m path ]

  child-set_child :
      (c d : ℕ) (n : Node A) (cs : Children A)
      → child d (set_child c n cs) ≡ (if c == d then some n else child d cs)
  unfolding child set_child
  child-set_child c d n nil = refl
  child-set_child c d n (cons e m cs) = ground (arith, child-set_child c d n cs)

  pub route_at-new_node : (path : Text) → route_at (new_node {A = A}) path ≡ none
  unfolding route_at child
  route_at-new_node [] = refl
  route_at-new_node (c ∷ path) = refl

  route_at-child :
      (c : ℕ) (cs : Children A) (v : Option A) (r : Bool) (path : Text)
      → route_at (node cs v r) (c ∷ path) ≡ route_at (get_or (child c cs) new_node) path
  unfolding route_at
  route_at-child c cs v r path = elim (Option-cases (child c cs)) [
    | inl e ↦ rw (e, route_at) (rw (route_at-new_node path))
    | inr (n, e) ↦ rw (e, route_at)
  ]

  -- Add changes the value at its own path and at no other.
  pub route_at-add_node :
      (n : Node A) (path q : Text) (a : A)
      → route_at (add_node n path a) q ≡ (if path == q then some a else route_at n q)
  unfolding add_node
  route_at-add_node (node cs v r) [] [] a = unfold route_at in refl
  route_at-add_node (node cs v r) [] (d ∷ q) a = unfold route_at in refl
  route_at-add_node (node cs v r) (c ∷ path) [] a = unfold route_at in refl
  route_at-add_node (node cs v r) (c ∷ path) (d ∷ q) a = ground (
    arith,
    route_at-child d (set_child c (add_node (get_or (child c cs) new_node) path a) cs) v r q,
    route_at-child d cs v r q,
    child-set_child c d (add_node (get_or (child c cs) new_node) path a) cs,
    route_at-add_node (get_or (child c cs) new_node) path q a,
  )

-- A node that ends a route has a value, and no other node has one.
unfoldable mutual
  pub IsSound {ℓ} : {A : Type ℓ} → Node A → Type 0
  IsSound (node cs v r) = (r ≡ is_some v) × AreSound cs

  pub AreSound {ℓ} : {A : Type ℓ} → Children A → Type 0
  AreSound nil = Unit
  AreSound (cons c n cs) = IsSound n × AreSound cs

pub new_node-IsSound {ℓ} : (A : Type ℓ) → IsSound (new_node {A = A})
unfolding IsSound
new_node-IsSound A = (refl, tt)

module _ {ℓ} {A : Type ℓ} where
  set_child-AreSound :
      (c : ℕ) (n : Node A) (cs : Children A) → IsSound n → AreSound cs → AreSound (set_child c n cs)
  unfolding IsSound set_child
  set_child-AreSound c n nil h hs = (h, tt)
  set_child-AreSound c n (cons d m cs) h hs = ground (arith, set_child-AreSound c n cs h hs.1)

  pub child-IsSound :
      (c : ℕ) (cs : Children A) → AreSound cs → IsSound (get_or (child c cs) new_node)
  unfolding IsSound child
  child-IsSound c nil hs = (refl, tt)
  child-IsSound c (cons d m cs) hs = ground (arith, child-IsSound c cs hs.1)

  pub add_node-IsSound :
      (n : Node A) (path : Text) (a : A) → IsSound n → IsSound (add_node n path a)
  unfolding add_node IsSound
  add_node-IsSound (node cs v r) [] a h = (refl, h.1)
  add_node-IsSound (node cs v r) (c ∷ path) a h = (
    h.0,
    set_child-AreSound c _ cs
        (add_node-IsSound (get_or (child c cs) new_node) path a (child-IsSound c cs h.1)) h.1,
  )
