-- ===== src/Gateway/Features/Samples.antt =====
-- An upstream with one feature of each kind.
use gooners.Base.{Bool, false, Option, none, [], ◌∷◌, nat_eq, list_eq, text}
use gooners.Base.Map
use gooners.Base.Map.{Map}
use gooners.Gateway.Registry.Sync.{Served}
use gooners.Gateway.Tools.{UpstreamConfig}
use gooners.Gateway.Features.{
  Prompt, Resource, ResourceTemplate, register_upstream_prompts, register_upstream_resources,
  register_upstream_resource_templates,
}

abbrev empty {ℓ} : {T : Type ℓ} → Served T
empty = record {
  registry = record { final_to_upstream = []; upstream_registered = []; registered = [] };
  server = [];
}

abbrev docs : UpstreamConfig
docs = record {
  name = text "docs";
  tools = record {
    prefix = text "d_";
    allow = [];
    deny = [];
    desc_max = 80;
    lazy = none;
    scopes = [];
  };
}

abbrev never {ℓ} : {T : Type ℓ} → Option T → T → Bool
never old new = false

abbrev greet : Prompt
greet = record { name = text "greet"; description = []; rest = 1 }

abbrev page : Resource
page = record { uri = text "file:a"; description = []; rest = 2 }

abbrev pages : ResourceTemplate
pages = record { uri_template = text "file:x"; description = []; rest = 3 }

abbrev with_prompt : Served Prompt
with_prompt = (register_upstream_prompts never empty docs (greet ∷ [])).0

abbrev with_resource : Served Resource
with_resource = (register_upstream_resources never empty docs (page ∷ [])).0

abbrev with_template : Served ResourceTemplate
with_template = (register_upstream_resource_templates never empty docs (pages ∷ [])).0
