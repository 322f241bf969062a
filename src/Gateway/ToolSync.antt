-- ===== src/Gateway/ToolSync.antt =====
-- internal/gateway/gateway.go: registerUpstreamTools, which has loops of its own in place of those of
-- the feature registry. The handlers behind the tools are left out.
pub mod Merge
pub mod Rounds
pub mod Loop
pub mod Entries
pub mod Mirror
mod Samples
use gooners.Base.{
  ℕ, zero, suc, ◌+◌, ◌-◌, ◌*◌, ◌≤◌, ◌<◌, ◌≡◌, refl, sym, ap, ◌∙◌, ◌≢◌, ◌↔◌, ◌⊎◌, inl, inr, Bool,
  true, false, not, ◌&&◌, ◌||◌, Option, none, some, List, [], ◌∷◌, ◌++◌, map, arith, ltb, leb,
  nat_beq, if◌then◌else◌, Eq, ◌==◌, nat_eq, ==-self, list_beq, list_beq_iff, list_eq, Bool-cases,
  Sum-cases, Option-cases, length, get_elem?, take, drop, keep, is_empty, get_or, is_some, or_else,
  length-append, length-keep-le, keep-append, All, All-append, contains, count, contains-append,
  contains-keep, Text, text, to_lower, has_prefix, has_infix, has_suffix, trim_prefix,
  trim_prefix-append, is_space, fields, trim_left, trim_space, cut_at, join,
}
use gooners.Base.Map
use gooners.Base.Map.{Map}
use gooners.Gateway.Registry.{
  Registry, Collision, Set, names_of, ensure_upstream, remove_one, put_one, own_set,
}
use gooners.Gateway.Registry.Sync.{Served}
use gooners.Gateway.Names.{namespace_name}
use gooners.Gateway.Tools.{Tool, ToolsConfig, UpstreamConfig, trim_description, allowed}
use gooners.Gateway.Scopes.{Gateway, reserved_tool}

-- toolByFinal, rawNameByFinal and newSet
pub record ToolMaps : Type 0 where
  pub tool_by_final : Map Text Tool
  pub raw_name_by_final : Map Text Text
  pub new_set : Set

abbrev pub final_tool : ToolsConfig → Text → Tool → Tool
final_tool cfg name t = record t {
  name = name;
  description = trim_description t.description cfg.desc_max;
}

abbrev pub put_tool : ToolsConfig → Tool → ToolMaps → ToolMaps
put_tool cfg rt m =
    let name = namespace_name cfg.prefix rt.name in
    record {
      tool_by_final = Map.put name (final_tool cfg name rt) m.tool_by_final;
      raw_name_by_final = Map.put name rt.name m.raw_name_by_final;
      new_set = Map.put name tt m.new_set;
    }

-- A tool is registered when the upstream's lists allow it and the gateway has no tool of that name.
abbrev pub is_registered : (Text → Text → Bool) → Gateway → ToolsConfig → Tool → Bool
is_registered path_match g cfg rt =
    if not (allowed path_match cfg rt.name)
    then false
    else not (reserved_tool g (namespace_name cfg.prefix rt.name))

-- The loop over the upstream's tools.
unfoldable pub collect_tools :
    (Text → Text → Bool) → Gateway → ToolsConfig → List Tool → ToolMaps → ToolMaps
unfolding allowed reserved_tool
collect_tools path_match g cfg [] m = m
collect_tools path_match g cfg (rt ∷ tools) m =
    collect_tools path_match g cfg tools
      (if is_registered path_match g cfg rt then put_tool cfg rt m else m)

-- RemoveTools and the three deletions.
abbrev pub drop_tool : Text → Text → Served Tool → Served Tool
drop_tool up name s = record {
  registry = remove_one s.registry up name;
  server = Map.delete name s.server;
}

-- The loop over the names that the upstream had.
unfoldable pub drop_gone : Text → Set → Set → Served Tool → Served Tool
unfolding remove_one
drop_gone up [] names s = s
drop_gone up ((name, _) ∷ prev) names s =
    drop_gone up prev names (if Map.has name names then s else drop_tool up name s)

-- upstreamRegistered[up][name] = struct{}{}
abbrev pub mark : Text → Text → Registry Tool → Registry Tool
mark up name r = record r {
  upstream_registered = Map.put up (Map.put name tt (names_of r up)) r.upstream_registered;
}

-- AddTool and the two entries.
abbrev pub add_tool : Text → Text → Tool → Served Tool → Served Tool
add_tool up name final s = record {
  registry = put_one s.registry up name final;
  server = Map.put name final s.server;
}

abbrev pub marked : Text → Text → Served Tool → Served Tool
marked up name s = record s { registry = mark up name s.registry }

module _ (equal : Option Tool → Tool → Bool) (up : Text) (raw : Map Text Text) where
  -- One round of the loop over toolByFinal.
  unfoldable pub serve_tool : Text → Tool → Served Tool → Served Tool × List Collision
  unfolding put_one
  serve_tool name final s = elim (Map.get name s.registry.final_to_upstream) [
    | none ↦ (marked up name (add_tool up name final s), [])
    | some owner ↦
        if not (owner == up)
        then (
          s,
          record { upstream = owner; tool = get_or (Map.get name raw) name; result_name = name }
              ∷ [],
        )
        else if not (equal (Map.get name s.registry.registered) final)
        then (marked up name (add_tool up name final s), [])
        else (marked up name s, [])
  ]

  unfoldable pub serve_tools : Map Text Tool → Served Tool → Served Tool × List Collision
  unfolding serve_tool
  serve_tools [] s = (s, [])
  serve_tools ((name, final) ∷ tools) s =
      let one = serve_tool name final s in
      let rest = serve_tools tools one.0 in (rest.0, one.1 ++ rest.1)

-- The last loop: the upstream's set is what it owns of the new names.
abbrev pub settle_set : Text → Set → Registry Tool → Registry Tool
settle_set up names r = record r {
  upstream_registered = Map.put up (own_set r up names) r.upstream_registered;
}

unfoldable pub register_upstream_tools :
    (Text → Text → Bool)
    → Gateway
    → (Option Tool → Tool → Bool)
    → Served Tool
    → UpstreamConfig
    → List Tool
    → Served Tool × List Collision
unfolding collect_tools drop_gone serve_tools own_set ensure_upstream
register_upstream_tools path_match g equal s u tools =
    let r = ensure_upstream s.registry u.name in
    let m =
      collect_tools path_match g u.tools tools
        (record { tool_by_final = []; raw_name_by_final = []; new_set = [] }) in
    let left = drop_gone u.name (names_of r u.name) m.new_set (record s { registry = r }) in
    let done = serve_tools equal u.name m.raw_name_by_final m.tool_by_final left in
    (record done.0 { registry = settle_set u.name m.new_set done.0.registry }, done.1)
