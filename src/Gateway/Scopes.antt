-- ===== src/Gateway/Scopes.antt =====
-- internal/gateway/scope.go, discovery.go and auth.go: what the OAuth scopes of a caller let it call,
-- list, search and describe. Patterns are matched by a parameter that stands for path.Match.
pub mod Access
pub mod Hidden
mod Samples
use gooners.Base.{
  ℕ, zero, suc, ◌+◌, ◌-◌, ◌*◌, ◌≤◌, ◌<◌, ◌≡◌, refl, sym, ap, ◌∙◌, ◌≢◌, ◌↔◌, ◌⊎◌, inl, inr, Bool,
  true, false, not, ◌&&◌, ◌||◌, Option, none, some, List, [], ◌∷◌, ◌++◌, map, arith, ltb, leb,
  nat_beq, if◌then◌else◌, Eq, ◌==◌, nat_eq, ==-self, list_beq, list_beq_iff, list_eq, Bool-cases,
  Option-cases, length, get_elem?, take, drop, keep, is_empty, get_or, is_some, or_else,
  length-append, length-keep-le, keep-append, All, All-append, contains, count, contains-append,
  contains-keep, Text, text, to_lower, has_prefix, has_infix, has_suffix, trim_prefix,
  trim_prefix-append,
}
use gooners.Base.Map
use gooners.Base.Map.{Map}
use gooners.Gateway.Tools.{Tool, ScopeConfig, ToolsConfig, UpstreamConfig, trim_description}

-- The parts of Gateway that these handlers read. blob_store tells whether there is one.
pub record Gateway : Type 0 where
  pub upstreams : List UpstreamConfig
  pub final_to_upstream : Map Text Text
  pub registered_tools : Map Text Tool
  pub discovery : Bool
  pub blob_store : Bool

abbrev pub upstream_scope : Text → Text
upstream_scope upstream = text "mcp:" ++ upstream

abbrev pub upstream_sub_scope : Text → Text → Text
upstream_sub_scope upstream name = text "mcp:" ++ (upstream ++ (b':' ∷ name))

abbrev pub find_upstream : Text → List UpstreamConfig → Option UpstreamConfig
find_upstream name [] = none
find_upstream name (u ∷ upstreams) = if u.name == name then some u else find_upstream name upstreams

unfoldable pub upstream_by_name : Gateway → Text → Option UpstreamConfig
upstream_by_name g name = find_upstream name g.upstreams

unfoldable pub reserved_tool : Gateway → Text → Bool
reserved_tool g name =
    if name == text "search_tools" || name == text "describe_tools"
    then g.discovery
    else if name == text "blob_share"
    then g.blob_store
    else false

-- for_upstream is none on the aggregate server, and a route's own upstream on its server.
unfoldable pub is_own_tool : Gateway → Option UpstreamConfig → Text → Bool
unfolding reserved_tool
is_own_tool g none name = reserved_tool g name
is_own_tool g (some u) name = false

unfoldable pub resolve_tool_owner :
    Gateway → Option UpstreamConfig → Text → Option (UpstreamConfig × Text)
unfolding upstream_by_name
resolve_tool_owner g (some u) final_name = some (u, final_name)
resolve_tool_owner g none final_name = elim (Map.get final_name g.final_to_upstream) [
  | none ↦ none
  | some name ↦ elim (upstream_by_name g name) [
    | none ↦ none
    | some u ↦ some (u, trim_prefix final_name u.tools.prefix)
  ]
]

abbrev pub is_lazy : ToolsConfig → Bool
is_lazy t = get_or t.lazy false

pub data Request : Type 0 where
  call_tool : Text → Request
  list_tools : Request
  other : Text → Request

pub data Reply : Type 0 where
  tools : List Tool → Reply
  answer : ℕ → Reply
  failed : ℕ → Reply
  not_permitted : Text → Reply

-- slices.DeleteFunc on the tools of a ListToolsResult; any other reply stays.
abbrev pub filter_listed : (Text → Bool) → Reply → Reply
filter_listed drop_name (tools ts) = tools (keep (λ t. not (drop_name t.name)) ts)
filter_listed drop_name r = r

-- The loop of handleDescribeTools: the tools, and the names that are not found.
unfoldable pub describe : Map Text Tool → List Text → List Tool × List Text
describe visible [] = ([], [])
describe visible (name ∷ names) =
    let (ts, missing) = describe visible names in
    elim (Map.get name visible) [ none ↦ (ts, name ∷ missing) | some t ↦ (t ∷ ts, missing) ]

module _ (path_match : Text → Text → Bool) where
  abbrev pub any_pattern : List Text → Text → Bool
  any_pattern [] name = false
  any_pattern (p ∷ patterns) name = if path_match p name then true else any_pattern patterns name

  -- The loop over the scopes of an upstream.
  abbrev pub sub_scope_allows : List Text → Text → List ScopeConfig → Text → Bool
  sub_scope_allows granted upstream [] raw_name = false
  sub_scope_allows granted upstream (sc ∷ scopes) raw_name =
      let rest = sub_scope_allows granted upstream scopes raw_name in
      if not (contains granted (upstream_sub_scope upstream sc.name))
      then rest
      else if any_pattern sc.match raw_name
      then true
      else rest

  unfoldable pub scope_allows_tool : List Text → Text → List ScopeConfig → Text → Bool
  scope_allows_tool granted upstream scopes raw_name =
      if contains granted (upstream_scope upstream)
      then true
      else sub_scope_allows granted upstream scopes raw_name

  -- u != nil and scopeAllowsTool
  abbrev pub owner_allows : List Text → Option (UpstreamConfig × Text) → Bool
  owner_allows granted none = false
  owner_allows granted (some (u, raw_name)) =
      scope_allows_tool granted u.name u.tools.scopes raw_name

  -- The function that slices.DeleteFunc is given, for tools/list.
  unfoldable pub dropped : Gateway → Option UpstreamConfig → List Text → Text → Bool
  unfolding is_own_tool resolve_tool_owner scope_allows_tool
  dropped g for_upstream granted name =
      if is_own_tool g for_upstream name
      then false
      else not (owner_allows granted (resolve_tool_owner g for_upstream name))

  -- scopeMiddleware around a handler; the token is none for a caller without TokenInfo.
  unfoldable pub scope_middleware :
      Gateway → Option UpstreamConfig → Option (List Text) → (Request → Reply) → Request → Reply
  unfolding dropped is_own_tool resolve_tool_owner
  scope_middleware g for_upstream none next req = next req
  scope_middleware g for_upstream (some granted) next (call_tool name) =
      if is_own_tool g for_upstream name
      then next (call_tool name)
      else if owner_allows granted (resolve_tool_owner g for_upstream name)
      then next (call_tool name)
      else not_permitted name
  scope_middleware g for_upstream (some granted) next list_tools =
      filter_listed (dropped g for_upstream granted) (next list_tools)
  scope_middleware g for_upstream (some granted) next (other method) = next (other method)

  -- The loop of visibleTools: the tools that stay.
  abbrev pub stays : Gateway → Option (List Text) → Text → Bool
  stays g token name = elim (resolve_tool_owner g none name) [
    | none ↦ false
    | some (u, raw_name) ↦ elim token [
      | none ↦ true
      | some granted ↦ scope_allows_tool granted u.name u.tools.scopes raw_name
    ]
  ]

  unfoldable pub visible_tools : Gateway → Option (List Text) → Map Text Tool
  unfolding resolve_tool_owner
  visible_tools g token = keep (λ (name, t). stays g token name) g.registered_tools

  unfoldable pub handle_describe_tools :
      Gateway → Option (List Text) → List Text → Option (List Tool × List Text)
  unfolding describe visible_tools
  handle_describe_tools g token names =
      if length names == 0 then none else some (describe (visible_tools g token) names)

-- lazyMiddleware around a handler.
unfoldable pub lazy_middleware : Gateway → (Request → Reply) → Request → Reply
unfolding resolve_tool_owner
lazy_middleware g next list_tools =
    filter_listed
      (λ name. elim (resolve_tool_owner g none name) [
        | none ↦ false
        | some (u, _) ↦ is_lazy u.tools
      ])
      (next list_tools)
lazy_middleware g next req = next req
