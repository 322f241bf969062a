-- ===== src/Gateway/Router/Routing.antt =====
-- A router that is built from a list of routes, as removeRoute of internal/gateway/reload.go and
-- setRouteServer of internal/gateway/gateway.go build it, against the list itself.
use gooners.Base.{
  or_else, sym, ap, list_beq_iff, inr, inl, Bool-cases, arith, ◌∙◌, ◌≡◌, refl, ◌&&◌, Option, none,
  some, List, [], ◌∷◌, ◌==◌, nat_eq, list_eq, if◌then◌else◌, get_or, is_empty, Text, to_lower,
}
use mathlib.Core.Path.{fun_ext, ap₂}
use gooners.Base.Map
use gooners.Gateway.Router.{lookup_node, Node, add_node, lookup, new_node, Router, new_router, add}
use gooners.Gateway.Router.Trie.{
  add_node-IsSound, route_at-add_node, route_at-new_node, route_at, IsSound, new_node-IsSound,
}
use gooners.Gateway.Router.Longest.{
  or_else-none, longest, longest-none, lookup_node-longest, longest-none,
}

pub record Route {ℓ} (A : Type ℓ) : Type ℓ where
  pub host : Text
  pub path : Text
  pub server : A

module _ {ℓ} {A : Type ℓ} where
  unfoldable pub add_all : Router A → List (Route A) → Router A
  add_all r [] = r
  add_all r (x ∷ xs) = add_all (add r x.host x.path x.server) xs

  -- The specification: the last route given for a host in lower case and a path. A route without a
  -- host is for any host, which stands for the empty name.
  unfoldable pub registered : List (Route A) → Text → Text → Option A
  registered [] h p = none
  registered (x ∷ xs) h p =
      or_else (registered xs h p)
        (if to_lower x.host == h && x.path == p then some x.server else none)

  -- What a router holds for a host in lower case.
  held : Router A → Text → Text → Option A
  held r h p =
      if is_empty h then route_at r.any p else route_at (get_or (Map.get h r.hosts) new_node) p

  record IsWell (r : Router A) : Type ℓ where
    any_sound : IsSound r.any
    hosts_sound : (h : Text) → IsSound (get_or (Map.get h r.hosts) (new_node {A = A}))
    unnamed : Map.get [] r.hosts ≡ none

  new_router-IsWell : IsWell new_router
  unfolding new_router Map.get
  new_router-IsWell = record {
    any_sound = new_node-IsSound A;
    hosts_sound = λ h. new_node-IsSound A;
    unnamed = refl;
  }

  add-IsWell : (r : Router A) (host path : Text) (a : A) → IsWell r → IsWell (add r host path a)
  unfolding add
  add-IsWell r [] path a w = record {
    any_sound = add_node-IsSound r.any path a w.any_sound;
    hosts_sound = w.hosts_sound;
    unnamed = w.unnamed;
  }
  add-IsWell r (c ∷ host) path a w =
      let name = to_lower (c ∷ host) in
      let old = get_or (Map.get name r.hosts) new_node in
      let fresh = add_node old path a in
      record {
        any_sound = w.any_sound;
        hosts_sound = λ h. elim (Bool-cases (name == h)) [
          | inl e ↦
              rw (Map.get-put name h fresh r.hosts, e)
                (add_node-IsSound old path a (w.hosts_sound name))
          | inr e ↦ rw (Map.get-put name h fresh r.hosts, e) (w.hosts_sound h)
        ];
        unnamed = rw (Map.get-put name [] fresh r.hosts) w.unnamed;
      }

  held-add :
      (r : Router A) (host path h p : Text) (a : A)
      → held (add r host path a) h p
        ≡ (if to_lower host == h && path == p then some a else held r h p)
  unfolding held add
  held-add r [] path [] p a = route_at-add_node r.any path p a
  held-add r [] path (d ∷ h) p a = refl
  held-add r (c ∷ host) path [] p a = refl
  held-add r (c ∷ host) path (d ∷ h) p a =
      let name = to_lower (c ∷ host) in
      let old = get_or (Map.get name r.hosts) new_node in
      elim (Bool-cases (name == (d ∷ h))) [
        | inl e ↦
            rw
              (
                Map.get-put name (d ∷ h) (add_node old path a) r.hosts,
                e,
                route_at-add_node old path p a,
              )
              (rw ((list_beq_iff name (d ∷ h)).0 e))
        | inr e ↦ rw (Map.get-put name (d ∷ h) (add_node old path a) r.hosts, e)
      ]

  add_all-IsWell : (xs : List (Route A)) (r : Router A) → IsWell r → IsWell (add_all r xs)
  unfolding add_all
  add_all-IsWell [] r w = w
  add_all-IsWell (x ∷ xs) r w =
      add_all-IsWell xs (add r x.host x.path x.server) (add-IsWell r x.host x.path x.server w)

  held-add_all :
      (xs : List (Route A)) (r : Router A) (h p : Text)
      → held (add_all r xs) h p ≡ or_else (registered xs h p) (held r h p)
  unfolding add_all registered
  held-add_all [] r h p = refl
  held-add_all (x ∷ xs) r h p =
      held-add_all xs (add r x.host x.path x.server) h p
      ∙ ground (arith, held-add r x.host x.path h p x.server)

  held-new_router : (h p : Text) → held new_router h p ≡ none
  unfolding held new_router Map.get
  held-new_router [] p = route_at-new_node p
  held-new_router (c ∷ h) p = route_at-new_node p

  -- Every Add counts, and nothing but the last Add for the same host and path replaces it.
  held_registered :
      (xs : List (Route A)) (h p : Text) → held (add_all new_router xs) h p ≡ registered xs h p
  held_registered xs h p =
      held-add_all xs new_router h p ∙ rw (held-new_router h p) (or_else-none (registered xs h p))

  or_else_self : (o : Option A) → or_else o o ≡ o
  or_else_self none = refl
  or_else_self (some a) = refl

  -- The answer of one host's trie, or else of the trie of any host.
  host_or_any : Option (Node A) → Node A → Text → Option A
  host_or_any none n path = lookup_node n path
  host_or_any (some m) n path = or_else (lookup_node m path) (lookup_node n path)

  lookup_lem :
      (r : Router A) (host path : Text)
      → lookup r host path ≡ host_or_any (Map.get (to_lower host) r.hosts) r.any path
  unfolding lookup host_or_any
  lookup_lem r host path = ground arith

  host_or_any-longest :
      (m : Option (Node A)) (n : Node A) (path : Text)
      → IsSound (get_or m new_node)
      → IsSound n
      → host_or_any m n path
        ≡ or_else (longest (route_at (get_or m new_node)) path) (longest (route_at n) path)
  unfolding host_or_any
  host_or_any-longest none n path sm sn =
      rw (longest-none (route_at new_node) path route_at-new_node) (lookup_node-longest n path sn)
  host_or_any-longest (some m) n path sm sn =
      rw (lookup_node-longest m path sm, lookup_node-longest n path sn)

  lookup-held :
      (r : Router A) (host path : Text)
      → IsWell r
      → lookup r host path
        ≡ or_else (longest (held r (to_lower host)) path) (longest (held r []) path)
  unfolding held
  lookup-held r [] path w =
      lookup_lem r [] path
      ∙ (rw w.unnamed
          (unfold host_or_any in lookup_node-longest r.any path w.any_sound ∙ sym (or_else_self _)))
  lookup-held r (c ∷ host) path w =
      lookup_lem r (c ∷ host) path
      ∙ host_or_any-longest (Map.get (to_lower (c ∷ host)) r.hosts) r.any path
          (w.hosts_sound (to_lower (c ∷ host))) w.any_sound

  -- Looking up a host and a path in a router built from any list of routes gives the longest route
  -- of that host, whatever its case, that ends at a boundary of the path, and the longest route of
  -- any host where the host has none.
  pub lookup-longest :
      (xs : List (Route A)) (host path : Text)
      → lookup (add_all new_router xs) host path
        ≡ or_else (longest (registered xs (to_lower host)) path) (longest (registered xs []) path)
  lookup-longest xs host path =
      let same = λ (h : Text). ap (λ f. longest f path) (fun_ext (held_registered xs h)) in
      lookup-held (add_all new_router xs) host path (add_all-IsWell xs new_router new_router-IsWell)
      ∙ ap₂ or_else (same (to_lower host)) (same [])
