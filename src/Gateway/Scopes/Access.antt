-- ===== src/Gateway/Scopes/Access.antt =====
-- scopeMiddleware and visibleTools: what a caller can list, see and call.
use gooners.Base.{
  ◌≡◌, refl, sym, ap, ◌∙◌, Bool, true, false, not, Option, none, some, List, [], ◌∷◌, arith,
  if◌then◌else◌, nat_eq, list_beq_iff, list_eq, keep, Text,
}
use gooners.Base.Map
use gooners.Base.Map.{Map}
use gooners.Gateway.Tools.{Tool, UpstreamConfig}
use gooners.Gateway.Scopes.{
  Gateway, Request, call_tool, list_tools, Reply, tools, answer, dropped, scope_middleware, stays,
  visible_tools, reserved_tool,
}

abbrev is_answer : Reply → Bool
is_answer (answer _) = true
is_answer _ = false

module _ (path_match : Text → Text → Bool) where
  -- Whether a call of the tool reaches the handler behind scopeMiddleware.
  abbrev pub reaches : Gateway → Option UpstreamConfig → Option (List Text) → Text → Bool
  reaches g for_upstream token name =
      is_answer
        (scope_middleware path_match g for_upstream token (λ req. answer 0) (call_tool name))

  reaches-dropped :
      (g : Gateway) (for_upstream : Option UpstreamConfig) (granted : List Text) (name : Text)
      → reaches g for_upstream (some granted) name
        ≡ not (dropped path_match g for_upstream granted name)
  unfolding scope_middleware dropped
  reaches-dropped g for_upstream granted name = ground arith

  keep-same :
      (p q : Tool → Bool) (ts : List Tool) → ((t : Tool) → p t ≡ q t) → keep p ts ≡ keep q ts
  keep-same p q [] h = refl
  keep-same p q (t ∷ ts) h = rw (h t, keep-same p q ts h)

  keep_all : (ts : List Tool) → keep (λ t. true) ts ≡ ts
  keep_all [] = refl
  keep_all (t ∷ ts) = ap (λ r. t ∷ r) (keep_all ts)

  -- Where the handler behind it answers tools/list with a list, the scope middleware gives the caller
  -- exactly the tools of that list that the caller can also call, on the aggregate server and on a
  -- route's own, whatever the caller's credential is.
  pub list-reaches :
      (g : Gateway) (for_upstream : Option UpstreamConfig) (token : Option (List Text))
      (next : Request → Reply) (ts : List Tool)
      → next list_tools ≡ tools ts
      → scope_middleware path_match g for_upstream token next list_tools
        ≡ tools (keep (λ t. reaches g for_upstream token t.name) ts)
  unfolding scope_middleware
  list-reaches g for_upstream none next ts h = h ∙ ap tools (sym (keep_all ts))
  list-reaches g for_upstream (some granted) next ts h = rw h (
      ap tools (
        keep-same (λ t. not (dropped path_match g for_upstream granted t.name))
          (λ t. reaches g for_upstream (some granted) t.name) ts
          (λ t. sym (reaches-dropped g for_upstream granted t.name))))

  get-keep :
      (p : Text → Bool) (m : Map Text Tool) (k : Text)
      → Map.get k (keep (λ (name, t). p name) m) ≡ (if p k then Map.get k m else none)
  unfolding Map.get
  get-keep p [] k = ground arith
  get-keep p ((name, t) ∷ m) k = ground (arith, get-keep p m k, list_beq_iff name k)

  -- Looking up a name among the visible tools.
  pub get-visible_tools :
      (g : Gateway) (token : Option (List Text)) (name : Text)
      → Map.get name (visible_tools path_match g token)
        ≡ (if stays path_match g token name then Map.get name g.registered_tools else none)
  unfolding visible_tools
  get-visible_tools g token name = get-keep (stays path_match g token) g.registered_tools name

  stays-reaches :
      (g : Gateway) (granted : List Text) (name : Text)
      → reserved_tool g name ≡ false
      → stays path_match g (some granted) name ≡ reaches g none (some granted) name
  unfolding scope_middleware
  stays-reaches g granted name h = ground arith

  -- The tools that search_tools and describe_tools show to a caller with a token are the registered
  -- ones that it can call, for every name that is not reserved for the gateway.
  pub visible_tools-reaches :
      (g : Gateway) (granted : List Text) (name : Text)
      → reserved_tool g name ≡ false
      → Map.get name (visible_tools path_match g (some granted))
        ≡ (if reaches g none (some granted) name then Map.get name g.registered_tools else none)
  visible_tools-reaches g granted name h =
      get-visible_tools g (some granted) name ∙ rw (stays-reaches g granted name h)
