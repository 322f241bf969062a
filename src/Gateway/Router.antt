-- ===== src/Gateway/Router.antt =====
-- internal/gateway/router/router.go: routes by host and path prefix, as tries over the path's bytes.
-- A pointer to a node is the node itself, and Add returns the trie that it leaves behind.
pub mod Boundary
pub mod Trie
pub mod Longest
pub mod Routing
mod Samples
use gooners.Base.{
  ℕ, zero, suc, ◌+◌, ◌-◌, ◌&&◌, ◌||◌, Bool, true, false, Option, none, some, List, [], ◌∷◌, ◌==◌,
  nat_eq, list_eq, ltb, if◌then◌else◌, length, get_elem?, get_or, Text, to_lower, is_empty,
}
use gooners.Base.Map
use gooners.Base.Map.{Map}

mutual
  pub data Node {ℓ} (A : Type ℓ) : Type ℓ where
    node : Children A → Option A → Bool → Node A

  pub data Children {ℓ} (A : Type ℓ) : Type ℓ where
    nil : Children A
    cons : ℕ → Node A → Children A → Children A

module _ {ℓ} {A : Type ℓ} where
  abbrev pub children : Node A → Children A
  children (node cs v r) = cs

  abbrev pub value : Node A → Option A
  value (node cs v r) = v

  abbrev pub is_route : Node A → Bool
  is_route (node cs v r) = r

  abbrev pub new_node : Node A
  new_node = node nil none false

  -- children[c], where a missing key is a nil pointer
  pub child : ℕ → Children A → Option (Node A)
  child c nil = none
  child c (cons d n cs) = if d == c then some n else child c cs

  -- children[c] = n
  pub set_child : ℕ → Node A → Children A → Children A
  set_child c n nil = cons c n nil
  set_child c n (cons d m cs) = if d == c then cons d n cs else cons d m (set_child c n cs)

  -- The loop of Add from one node down, and the two writes at its end.
  pub add_node : Node A → Text → A → Node A
  add_node (node cs v r) [] a = node cs (some a) true
  add_node (node cs v r) (c ∷ path) a =
      node (set_child c (add_node (get_or (child c cs) new_node) path a) cs) v r

byte_is_slash : Option ℕ → Bool
byte_is_slash none = false
byte_is_slash (some c) = c == b'/'

unfoldable pub is_boundary : Text → ℕ → Bool
unfolding byte_is_slash
is_boundary path match_len =
    if match_len == length path
    then true
    else if ltb 0 match_len && byte_is_slash (get_elem? path (match_len - 1))
    then true
    else ltb match_len (length path) && byte_is_slash (get_elem? path match_len)

-- The loop of lookupNode at the index i, with the bytes that are left.
scan {ℓ} : {A : Type ℓ} → Text → ℕ → Node A → Option A → Text → Option A
scan path i curr best [] = best
scan path i curr best (c ∷ rest) = elim (child c (children curr)) [
  | none ↦ best
  | some next ↦
      scan path (suc i) next
        (if is_route next && is_boundary path (suc i) then value next else best) rest
]

unfoldable pub lookup_node {ℓ} : {A : Type ℓ} → Node A → Text → Option A
unfolding scan child is_boundary
lookup_node n path = scan path 0 n (if is_route n && is_boundary path 0 then value n else none) path

-- The router of a gateway: one trie for each named host, and one for any host.
pub record Router {ℓ} (A : Type ℓ) : Type ℓ where
  pub hosts : Map Text (Node A)
  pub any : Node A

module _ {ℓ} {A : Type ℓ} where
  unfoldable pub new_router : Router A
  new_router = record { hosts = []; any = new_node }

  unfoldable pub add : Router A → Text → Text → A → Router A
  unfolding add_node child set_child
  add r host path a = if is_empty host then record r { any = add_node r.any path a } else record r {
    hosts =
        Map.put (to_lower host)
          (add_node (get_or (Map.get (to_lower host) r.hosts) new_node) path a) r.hosts;
  }

  -- A host's own trie decides where it has a route, and the trie of any host otherwise.
  unfoldable pub lookup : Router A → Text → Text → Option A
  unfolding lookup_node
  lookup r host path = elim (Map.get (to_lower host) r.hosts) [
    | none ↦ lookup_node r.any path
    | some n ↦ elim (lookup_node n path) [ none ↦ lookup_node r.any path | some v ↦ some v ]
  ]
