-- ===== src/Gateway/Features.antt =====
-- internal/gateway/gateway.go: how the prompts, resources and resource templates of an upstream are
-- registered. `rest` stands for the fields that are passed on unread.
pub mod Registered
mod Samples
use gooners.Base.{
  ℕ, zero, suc, ◌+◌, ◌-◌, ◌*◌, ◌≤◌, ◌<◌, ◌≡◌, refl, sym, ap, ◌∙◌, ◌≢◌, ◌↔◌, ◌⊎◌, inl, inr, Bool,
  true, false, not, ◌&&◌, ◌||◌, Option, none, some, List, [], ◌∷◌, ◌++◌, map, arith, ltb, leb,
  nat_beq, if◌then◌else◌, Eq, ◌==◌, nat_eq, ==-self, list_beq, list_beq_iff, list_eq, Bool-cases,
  Option-cases, length, get_elem?, take, drop, keep, is_empty, get_or, is_some, or_else,
  length-append, length-keep-le, keep-append, All, All-append, contains, count, contains-append,
  contains-keep, Text, text, to_lower, has_prefix, has_infix, has_suffix, trim_prefix,
  trim_prefix-append,
}
use gooners.Base.Map
use gooners.Base.Map.{Map}
use gooners.Gateway.Registry.{Collision, Set}
use gooners.Gateway.Registry.Sync.{Served, sync, register, payloads_by_final, new_set}
use gooners.Gateway.Names.{namespace_name}
use gooners.Gateway.Tools.{ToolsConfig, UpstreamConfig, trim_description}

pub record Prompt : Type 0 where
  pub name : Text
  pub description : Text
  pub rest : ℕ

pub record Resource : Type 0 where
  pub uri : Text
  pub description : Text
  pub rest : ℕ

pub record ResourceTemplate : Type 0 where
  pub uri_template : Text
  pub description : Text
  pub rest : ℕ

-- The prompt that is served under a final name.
abbrev pub prompt_by_final : ToolsConfig → Text → Prompt → Prompt
prompt_by_final cfg name p = record p {
  name = name;
  description = trim_description p.description cfg.desc_max;
}

abbrev pub resource_by_final : ToolsConfig → Text → Resource → Resource
resource_by_final cfg uri r = record r {
  uri = uri;
  description = trim_description r.description cfg.desc_max;
}

abbrev pub template_by_final : ToolsConfig → Text → ResourceTemplate → ResourceTemplate
template_by_final cfg uri t = record t {
  uri_template = uri;
  description = trim_description t.description cfg.desc_max;
}

-- A URI is served as it is, without a prefix.
abbrev pub as_it_is : Text → Text
as_it_is uri = uri

-- registerUpstreamPrompts
unfoldable pub register_upstream_prompts :
    (Option Prompt → Prompt → Bool)
    → Served Prompt
    → UpstreamConfig
    → List Prompt
    → Served Prompt × List Collision
register_upstream_prompts equal s u prompts =
    register (λ p. p.name) (prompt_by_final u.tools) equal (namespace_name u.tools.prefix) s u.name
      prompts

-- registerUpstreamResources, which knows no raw names.
unfoldable pub register_upstream_resources :
    (Option Resource → Resource → Bool)
    → Served Resource
    → UpstreamConfig
    → List Resource
    → Served Resource × List Collision
register_upstream_resources equal s u resources =
    let payloads =
      payloads_by_final (λ r. r.uri) (resource_by_final u.tools) as_it_is resources [] in
    let names = new_set (λ r. r.uri) (resource_by_final u.tools) as_it_is resources [] in
    sync equal s u.name payloads [] names

-- registerUpstreamResourceTemplates, in the same way.
unfoldable pub register_upstream_resource_templates :
    (Option ResourceTemplate → ResourceTemplate → Bool)
    → Served ResourceTemplate
    → UpstreamConfig
    → List ResourceTemplate
    → Served ResourceTemplate × List Collision
register_upstream_resource_templates equal s u templates =
    let uri = λ (t : ResourceTemplate). t.uri_template in
    let payloads = payloads_by_final uri (template_by_final u.tools) as_it_is templates [] in
    let names = new_set uri (template_by_final u.tools) as_it_is templates [] in
    sync equal s u.name payloads [] names
