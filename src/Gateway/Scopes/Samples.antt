-- ===== src/Gateway/Scopes/Samples.antt =====
-- Two upstreams, and a token for a part of one of them.
use gooners.Base.{
  ◌≡◌, refl, Bool, true, false, none, some, List, [], ◌∷◌, if◌then◌else◌, ◌==◌, nat_eq, list_eq,
  keep, Text, text,
}
use gooners.Base.Map
use gooners.Base.Map.{Map}
use gooners.Gateway.Tools.{Tool, ScopeConfig, UpstreamConfig}
use gooners.Gateway.Scopes.{
  Gateway, Request, list_tools, Reply, tools, answer, reserved_tool, visible_tools,
  scope_middleware,
}
use gooners.Gateway.Scopes.Access.{reaches, list-reaches, visible_tools-reaches}

abbrev same_name : Text → Text → Bool
same_name pattern name = pattern == name

abbrev upstream : Text → Text → List ScopeConfig → UpstreamConfig
upstream name prefix scopes = record {
  name = name;
  tools = record {
    prefix = prefix;
    allow = [];
    deny = [];
    desc_max = 0;
    lazy = none;
    scopes = scopes;
  };
}

abbrev tool : Text → Tool
tool name = record { name = name; description = []; schema = 0 }

abbrev read_scope : ScopeConfig
read_scope = record { name = text "read"; match = text "get" ∷ [] }

abbrev g : Gateway
g = record {
  upstreams =
      upstream (text "k8s") (text "k_") (read_scope ∷ []) ∷ (upstream (text "git") [] [] ∷ []);
  final_to_upstream =
      (text "k_get", text "k8s")
      ∷ ((text "k_delete", text "k8s") ∷ ((text "clone", text "git") ∷ []));
  registered_tools =
      (text "k_get", tool (text "k_get"))
      ∷ ((text "k_delete", tool (text "k_delete")) ∷ ((text "clone", tool (text "clone")) ∷ []));
  discovery = true;
  blob_store = false;
}

abbrev token : List Text
token = text "mcp:k8s:read" ∷ []

abbrev full : List Tool
full = tool (text "k_get") ∷ (tool (text "k_delete") ∷ (tool (text "search_tools") ∷ []))

abbrev server : Request → Reply
server list_tools = tools full
server _ = answer 1

list-reaches_example :
    scope_middleware same_name g none (some token) server list_tools
    ≡ tools (keep (λ t. reaches same_name g none (some token) t.name) full)
list-reaches_example = list-reaches same_name g none (some token) server full refl

-- The caller can get but not delete, and search for tools.
listed :
    scope_middleware same_name g none (some token) server list_tools
    ≡ tools (tool (text "k_get") ∷ (tool (text "search_tools") ∷ []))
unfolding scope_middleware Map.get
listed = refl

visible_tools-reaches_example : Map.get (text "k_get") (visible_tools same_name g (some token)) ≡ (
    if reaches same_name g none (some token) (text "k_get")
    then Map.get (text "k_get") g.registered_tools
    else none)
unfolding reserved_tool
visible_tools-reaches_example = visible_tools-reaches same_name g token (text "k_get") refl
