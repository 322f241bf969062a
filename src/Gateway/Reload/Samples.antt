-- ===== src/Gateway/Reload/Samples.antt =====
-- A gateway with one upstream that a new configuration drops, and one that it adds.
use gooners.Base.{
  ℕ, ◌≡◌, refl, Bool, false, not, ◌&&◌, ◌||◌, none, List, [], ◌∷◌, arith, ◌==◌, nat_eq,
  list_beq_iff, list_eq, get_or, or_else, All, contains, Text, text, to_lower,
}
use gooners.Base.Map
use gooners.Base.Map.{Map}
use gooners.Gateway.Registry.Sync.{Served}
use gooners.Gateway.Registry.Sync.Pointwise.{IsConsistent}
use gooners.Gateway.Router.Routing.{registered}
use gooners.Gateway.Router.Longest.{longest}
use gooners.Gateway.Tools.{Tool}
use gooners.Gateway.Secrets.{SecretConfig}
use gooners.Gateway.Reload.{Section, Config, plan_upstreams, restart_required}
use gooners.Gateway.Reload.Plan.{names, Kept, plan_upstreams-parts}
use gooners.Gateway.Reload.Live.{
  Compare, Upstream, Live, built, others, route_list, detach_upstream, server_for_request,
}
use gooners.Gateway.Reload.Detached.{IsFreed, detach_upstream-IsFreed}
use gooners.Gateway.Reload.Routes.{set, remove, after, IsSingle, server_for_request-longest}

abbrev section : Text → ℕ → Section
section name rest = record {
  upstream = record {
    name = name;
    tools = record { prefix = []; allow = []; deny = []; desc_max = 80; lazy = none; scopes = [] };
  };
  env = (text "TOKEN", text "{secret:a}") ∷ [];
  headers = [];
  redact = none;
  route_host = [];
  route_path = text "/k8s";
  rest = rest;
}

abbrev secret : Text → SecretConfig
secret value = record {
  name = text "a";
  source = record { value = value; env = []; file = []; command = [] };
}

abbrev config : Text → List Section → Config
config value upstreams = record {
  server = 0;
  auth = 0;
  redact = 0;
  secrets = secret value ∷ [];
  upstreams = upstreams;
  blob = record { mounts = []; store = 0 };
}

abbrev same : Section → Section → Bool
same a b = a.rest == b.rest

abbrev old_config : Config
old_config = config (text "1") (section (text "k") 1 ∷ (section (text "d") 2 ∷ []))

abbrev new_config : Config
new_config = config (text "1") (section (text "k") 1 ∷ (section (text "g") 3 ∷ []))

plan_upstreams-parts_example :
    ((n : Text)
      → (contains (names (plan_upstreams same old_config new_config).add) n ≡ (
          contains (text "k" ∷ (text "g" ∷ [])) n && not (contains (text "k" ∷ (text "d" ∷ [])) n)))
        × (contains (names (plan_upstreams same old_config new_config).remove) n ≡ (
            contains (text "k" ∷ (text "d" ∷ [])) n
            && not (contains (text "k" ∷ (text "g" ∷ [])) n)))
        × ((contains (names (plan_upstreams same old_config new_config).restart) n
              || contains (plan_upstreams same old_config new_config).unchanged n)
            ≡ (contains (text "k" ∷ (text "g" ∷ [])) n && contains (text "k" ∷ (text "d" ∷ [])) n)))
    × All
        (Kept same old_config new_config new_config.upstreams)
        (plan_upstreams same old_config new_config).unchanged
plan_upstreams-parts_example = plan_upstreams-parts same old_config new_config

k_is_unchanged : (plan_upstreams same old_config new_config).unchanged ≡ text "k" ∷ []
unfolding plan_upstreams Map.get Map.put
k_is_unchanged = refl

-- A secret with a new value restarts the upstreams that refer to it.
k_is_restarted :
    names
      (plan_upstreams same old_config
        (record new_config { secrets = secret (text "2") ∷ [] })).restart
    ≡ text "k" ∷ []
unfolding plan_upstreams Map.get Map.put
k_is_restarted = refl

nothing_to_restart : restart_required old_config new_config ≡ []
unfolding restart_required
nothing_to_restart = refl

abbrev compare_all : Compare
compare_all = record {
  path_match = λ p n. p == n;
  own = record {
    upstreams = [];
    final_to_upstream = [];
    registered_tools = [];
    discovery = false;
    blob_store = false;
  };
  tool_equal = λ a b. false;
  prompt_equal = λ a b. false;
  resource_equal = λ a b. false;
  template_equal = λ a b. false;
}

abbrev empty {ℓ} : {T : Type ℓ} → Served T
empty = record {
  registry = record { final_to_upstream = []; upstream_registered = []; registered = [] };
  server = [];
}

empty-IsConsistent {ℓ} : {T : Type ℓ} → IsConsistent (empty {T = T})
unfolding Map.get
empty-IsConsistent = record { owned = λ up n. refl; backed = λ n. refl; served = λ n. refl }

abbrev pods : Tool
pods = record { name = text "pods"; description = []; schema = 0 }

-- The upstream k owns one tool.
abbrev one_tool : Served Tool
one_tool = record {
  registry = record {
    final_to_upstream = (text "pods", text "k") ∷ [];
    upstream_registered = (text "k", (text "pods", tt) ∷ []) ∷ [];
    registered = (text "pods", pods) ∷ [];
  };
  server = (text "pods", pods) ∷ [];
}

one_tool-IsConsistent : IsConsistent one_tool
unfolding Map.get
one_tool-IsConsistent = record {
  owned = λ up n. ground (arith, list_beq_iff (text "pods") n, list_beq_iff (text "k") up);
  backed = λ n. ground arith;
  served = λ n. refl;
}

abbrev k_upstream : Upstream
k_upstream = record { id = 1; cfg = section (text "k") 1 }

abbrev live : Live
live = record {
  upstreams = k_upstream ∷ [];
  tools = one_tool;
  prompts = empty;
  resources = empty;
  templates = empty;
  routes = built (
      record { upstream = text "k"; route = record { host = []; path = text "/k8s"; server = 7 } }
      ∷ []);
}

detach_upstream-IsFreed_example :
    IsFreed (text "k") live.tools (detach_upstream compare_all k_upstream live).tools
    × IsFreed (text "k") live.prompts (detach_upstream compare_all k_upstream live).prompts
    × IsFreed (text "k") live.resources (detach_upstream compare_all k_upstream live).resources
    × IsFreed (text "k") live.templates (detach_upstream compare_all k_upstream live).templates
    × ((detach_upstream compare_all k_upstream live).routes
        ≡ built (others (text "k") live.routes.table))
detach_upstream-IsFreed_example =
    detach_upstream-IsFreed compare_all k_upstream live one_tool-IsConsistent empty-IsConsistent
      empty-IsConsistent empty-IsConsistent refl

server_for_request-longest_example :
    IsSingle (after (set (section (text "k") 1) 7 ∷ (remove (text "d") ∷ []))).table
    × (server_for_request
          (λ h. none)
          0
          (after (set (section (text "k") 1) 7 ∷ (remove (text "d") ∷ [])))
          (text "h")
          (text "/k8s/mcp")
        ≡ (let routes =
              route_list (after (set (section (text "k") 1) 7 ∷ (remove (text "d") ∷ []))).table in
            get_or
              (or_else
                (longest (registered routes (to_lower (text "h"))) (text "/k8s/mcp"))
                (longest (registered routes []) (text "/k8s/mcp")))
              0))
server_for_request-longest_example =
    server_for_request-longest (λ h. none) 0
      (set (section (text "k") 1) 7 ∷ (remove (text "d") ∷ [])) (text "h") (text "/k8s/mcp")
