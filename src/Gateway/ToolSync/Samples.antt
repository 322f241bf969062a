-- ===== src/Gateway/ToolSync/Samples.antt =====
-- An upstream with one tool that it allows, one that it denies and one that the gateway has itself.
use gooners.Base.{
  ◌≡◌, refl, Bool, true, false, Option, none, List, [], ◌∷◌, ◌==◌, nat_eq, list_eq, keep, Text,
  text,
}
use gooners.Gateway.Registry.Sync.{Served, register}
use gooners.Gateway.Names.{namespace_name}
use gooners.Gateway.Scopes.{reserved_tool, Gateway}
use gooners.Gateway.Tools.{allowed, Tool, UpstreamConfig}
use gooners.Gateway.ToolSync.{allowed, register_upstream_tools, is_registered, final_tool}
use gooners.Gateway.ToolSync.Mirror.{register_upstream_tools-register}

abbrev pub gateway : Gateway
gateway = record {
  upstreams = [];
  final_to_upstream = [];
  registered_tools = [];
  discovery = true;
  blob_store = false;
}

abbrev exact : Text → Text → Bool
exact pattern name = pattern == name

abbrev never : Option Tool → Tool → Bool
never old new = false

abbrev pods : UpstreamConfig
pods = record {
  name = text "k8s";
  tools = record {
    prefix = [];
    allow = [];
    deny = text "exec" ∷ [];
    desc_max = 80;
    lazy = none;
    scopes = [];
  };
}

abbrev tool : Text → Tool
tool name = record { name = name; description = []; schema = 0 }

abbrev tools : List Tool
tools = tool (text "pods") ∷ (tool (text "exec") ∷ (tool (text "search_tools") ∷ []))

-- Another upstream holds the name of the tool.
abbrev taken : Served Tool
taken = record {
  registry = record {
    final_to_upstream = (text "pods", text "other") ∷ [];
    upstream_registered = (text "other", (text "pods", tt) ∷ []) ∷ [];
    registered = (text "pods", tool (text "pods")) ∷ [];
  };
  server = (text "pods", tool (text "pods")) ∷ [];
}

register_upstream_tools-register_example :
    register_upstream_tools exact gateway never taken pods tools
    ≡ register
        (λ t. t.name)
        (final_tool pods.tools)
        never
        (namespace_name [])
        taken
        (text "k8s")
        (keep (is_registered exact gateway pods.tools) tools)
register_upstream_tools-register_example =
    register_upstream_tools-register exact gateway never taken pods tools

one_is_left : keep (is_registered exact gateway pods.tools) tools ≡ tool (text "pods") ∷ []
unfolding allowed reserved_tool namespace_name
one_is_left = refl
