-- ===== src/Gateway/Reload/Live.antt =====
-- internal/gateway/reload.go, gateway.go: the parts of a running gateway that a reload changes. A
-- server of a route is a number, and what an upstream lists is an argument.
use gooners.Base.{
  ℕ, Bool, not, ◌||◌, Option, none, some, List, [], ◌∷◌, ◌++◌, map, if◌then◌else◌, ◌==◌, nat_eq,
  list_eq, length, keep, is_empty, get_or, Text,
}
use gooners.Base.Map
use gooners.Base.Map.{Map}
use gooners.Gateway.Registry.Sync.{Served}
use gooners.Gateway.Router.{Router, new_router, lookup}
use gooners.Gateway.Router.Routing.{Route, add_all}
use gooners.Gateway.Tools.{Tool, UpstreamConfig}
use gooners.Gateway.Features.{
  Prompt, Resource, ResourceTemplate, register_upstream_prompts, register_upstream_resources,
  register_upstream_resource_templates,
}
use gooners.Gateway.Scopes.{Gateway}
use gooners.Gateway.ToolSync.{register_upstream_tools}
use gooners.Gateway.Reload.{Section, name_of}

-- What the comparisons of features, path.Match and the gateway's own tools give.
pub record Compare : Type 0 where
  pub path_match : Text → Text → Bool
  pub own : Gateway
  pub tool_equal : Option Tool → Tool → Bool
  pub prompt_equal : Option Prompt → Prompt → Bool
  pub resource_equal : Option Resource → Resource → Bool
  pub template_equal : Option ResourceTemplate → ResourceTemplate → Bool

-- An upstream is the object that its number names.
pub record Upstream : Type 0 where
  pub id : ℕ
  pub cfg : Section

pub record RoutedServer : Type 0 where
  pub upstream : Text
  pub route : Route ℕ

pub record Routes : Type 0 where
  pub table : List RoutedServer
  pub router : Router ℕ

pub record Live : Type 0 where
  pub upstreams : List Upstream
  pub tools : Served Tool
  pub prompts : Served Prompt
  pub resources : Served Resource
  pub templates : Served ResourceTemplate
  pub routes : Routes

-- What an upstream lists: its tools, prompts, resources and templates.
pub record Listing : Type 0 where
  pub tools : List Tool
  pub prompts : List Prompt
  pub resources : List Resource
  pub templates : List ResourceTemplate

abbrev pub route_list : List RoutedServer → List (Route ℕ)
route_list table = map (λ r. r.route) table

-- The router that is built from the table.
abbrev pub built : List RoutedServer → Routes
built table = record { table = table; router = add_all new_router (route_list table) }

abbrev pub others : Text → List RoutedServer → List RoutedServer
others up table = keep (λ r. not (r.upstream == up)) table

unfoldable pub remove_route : Text → Routes → Routes
unfolding add_all new_router
remove_route up g =
    if length (others up g.table) == length g.table then g else built (others up g.table)

-- The table with the server of the first route of an upstream replaced.
abbrev pub replace_server : Text → ℕ → List RoutedServer → Option (List RoutedServer)
replace_server up server [] = none
replace_server up server (r ∷ table) =
    if r.upstream == up
    then some (record r { route = record r.route { server = server } } ∷ table)
    else elim (replace_server up server table) [ none ↦ none | some rest ↦ some (r ∷ rest) ]

unfoldable pub set_route_server : Section → ℕ → Routes → Routes
unfolding add_all new_router
set_route_server uc server g = built (
    get_or (replace_server (name_of uc) server g.table) (
      g.table
      ++ (record {
        upstream = name_of uc;
        route = record { host = uc.route_host; path = uc.route_path; server = server };
      }
          ∷ [])))

-- ServerForRequest, with net.SplitHostPort as an argument, for a request that is there.
unfoldable pub server_for_request : (Text → Option Text) → ℕ → Routes → Text → Text → ℕ
unfolding lookup
server_for_request split_host_port own g host path =
    get_or (lookup g.router (get_or (split_host_port host) host) path) own

abbrev pub has_route : Section → Bool
has_route uc = not (is_empty uc.route_host) || not (is_empty uc.route_path)

-- delete(registry.upstreamRegistered, name)
abbrev pub forget {ℓ} : {T : Type ℓ} → Text → Served T → Served T
forget up s = record s {
  registry = record s.registry {
    upstream_registered = Map.delete up s.registry.upstream_registered;
  };
}

module _ (c : Compare) where
  -- The four calls that register what an upstream lists.
  unfoldable pub register_all : UpstreamConfig → Listing → Live → Live
  unfolding register_upstream_tools register_upstream_prompts register_upstream_resources
      register_upstream_resource_templates
  register_all cfg l g = record g {
    tools = (register_upstream_tools c.path_match c.own c.tool_equal g.tools cfg l.tools).0;
    prompts = (register_upstream_prompts c.prompt_equal g.prompts cfg l.prompts).0;
    resources = (register_upstream_resources c.resource_equal g.resources cfg l.resources).0;
    templates =
        (register_upstream_resource_templates c.template_equal g.templates cfg l.templates).0;
  }

  abbrev pub empty_listing : Listing
  empty_listing = record { tools = []; prompts = []; resources = []; templates = [] }

  unfoldable pub detach_upstream : Upstream → Live → Live
  unfolding register_all remove_route Map.delete
  detach_upstream u g =
      let name = name_of u.cfg in
      let freed = register_all u.cfg.upstream empty_listing g in
      record {
        upstreams = keep (λ x. not (x.id == u.id)) g.upstreams;
        tools = forget name freed.tools;
        prompts = forget name freed.prompts;
        resources = forget name freed.resources;
        templates = forget name freed.templates;
        routes = remove_route name g.routes;
      }

  -- attachUpstream, with what the upstream lists, or none where connecting or listing it fails, and the
  -- server that is made for its route.
  unfoldable pub attach_upstream : Upstream → Option Listing → ℕ → Live → Live
  unfolding register_all set_route_server
  attach_upstream u listing server g =
      let g' = record g { upstreams = g.upstreams ++ (u ∷ []) } in
      elim listing [
        | none ↦ g'
        | some l ↦
            let done = register_all u.cfg.upstream l g' in
            if has_route u.cfg
            then record done { routes = set_route_server u.cfg server done.routes }
            else done
      ]
