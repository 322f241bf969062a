-- ===== src/Gateway/ToolSync/Mirror.antt =====
-- internal/gateway/gateway.go: registerUpstreamTools against the algorithm of the feature registry.
use gooners.Base.{◌≡◌, refl, sym, ap, ◌∙◌, Bool, Option, List, [], nat_eq, list_eq, keep, Text}
use gooners.Base.Map
use gooners.Base.Map.{Map}
use gooners.Base.Map.{IsMap, keys}
use gooners.Gateway.Registry.{
  Registry, Collision, Set, names_of, ensure_upstream, own_set, classify, gone, remove_all, put_all,
  apply, diff,
}
use gooners.Gateway.Registry.Sync.{
  Served, sync, register, put_selected, unserve, payloads_by_final, raw_by_final, new_set,
}
use gooners.Gateway.Registry.Sync.Consistent.{payloads_by_final-IsMap, new_set-payloads}
use gooners.Gateway.Names.{namespace_name}
use gooners.Gateway.Scopes.{Gateway}
use gooners.Gateway.Tools.{Tool, UpstreamConfig}
use gooners.Gateway.ToolSync.{
  drop_gone, serve_tools, settle_set, ToolMaps, is_registered, final_tool, register_upstream_tools,
}
use gooners.Gateway.ToolSync.Merge.{put_map-nil}
use gooners.Gateway.ToolSync.Rounds.{
  due, classify-due, drop_gone-remove_all, put_all-final, put_all-registered, put_all-upstream,
}
use gooners.Gateway.ToolSync.Loop.{serve_tools-IsServed}
use gooners.Gateway.ToolSync.Entries.{
  collect_tools-keep, ensure_upstream-twice, own_set-final, due-IsMap, due-IsFound,
  put_selected-put_map, gone-Agree, self-IsFound,
}

module _ (equal : Option Tool → Tool → Bool) (up : Text) (tools : Map Text Tool)
    (raw : Map Text Text) (names : Set) where
  -- The three loops that follow the collection of the tools.
  abbrev loops : Served Tool → Served Tool × List Collision
  loops s =
      let r = ensure_upstream s.registry up in
      let left = drop_gone up (names_of r up) names (record s { registry = r }) in
      let done = serve_tools equal up raw tools left in
      (record done.0 { registry = settle_set up names done.0.registry }, done.1)

  -- What sync makes, from the registry that the names are looked up in and the one that is changed.
  abbrev form : Served Tool → Registry Tool → Registry Tool → Served Tool × List Collision
  form s a b =
      let d = classify equal a up raw tools in
      let removed = gone (names_of a up) tools in
      (
        record {
          registry =
              settle_set up names
                (put_all (remove_all b up removed) up (put_selected tools d.to_add_or_change []));
          server = put_selected tools d.to_add_or_change (unserve removed s.server);
        },
        d.collisions,
      )

  sync-form :
      (s : Served Tool)
      → sync equal s up tools raw names
        ≡ form s (ensure_upstream s.registry up) (ensure_upstream s.registry up)
  unfolding sync diff apply
  sync-form s =
      let r = ensure_upstream s.registry up in
      let once = ensure_upstream-twice s.registry up in
      (λ i. form s (once i) ((ap (λ x. ensure_upstream x up) once ∙ once) i))

  settle_set-same :
      (a b : Registry Tool)
      → a.final_to_upstream ≡ b.final_to_upstream
      → a.registered ≡ b.registered
      → ((v : Set) → Map.put up v a.upstream_registered ≡ Map.put up v b.upstream_registered)
      → settle_set up names a ≡ settle_set up names b
  settle_set-same a b f p u =
      let own = own_set-final a b up names f in
      let sets = u (own_set a up names) ∙ ap (λ x. Map.put up x b.upstream_registered) own in
      (λ i. record { final_to_upstream = f i; upstream_registered = sets i; registered = p i })

  module _ (distinct : IsMap tools) (same : (n : Text) → Map.has n names ≡ Map.has n tools) where
    loops-sync : (s : Served Tool) → loops s ≡ sync equal s up tools raw names
    loops-sync s =
        let r = ensure_upstream s.registry up in
        let removed = gone (names_of r up) tools in
        let q = remove_all r up removed in
        let left : Served Tool = record { registry = q; server = unserve removed s.server } in
        let d = due equal up r tools in
        let dropped =
          drop_gone-remove_all up (names_of r up) names tools (record s { registry = r }) same in
        let out = serve_tools equal up raw tools left in
        let h =
          serve_tools-IsServed equal up raw r tools left distinct
            (gone-Agree up r (names_of r up) tools tools (self-IsFound tools distinct)) in
        let chosen = classify-due equal up raw r tools in
        let found = due-IsFound equal up r tools distinct in
        let added : put_selected tools (classify equal r up raw tools).to_add_or_change [] ≡ d =
          ap (λ x. put_selected tools x []) chosen
          ∙ (put_selected-put_map tools d [] found
              ∙ put_map-nil d (due-IsMap equal up r tools distinct)) in
        let served : put_selected tools (classify equal r up raw tools).to_add_or_change left.server
            ≡ out.0.server =
          ap (λ x. put_selected tools x left.server) chosen
          ∙ (put_selected-put_map tools d left.server found ∙ sym h.0) in
        let settled =
          settle_set-same out.0.registry (put_all q up d) (h.1 ∙ sym (put_all-final q up d))
            (h.2 ∙ sym (put_all-registered q up d))
            (λ v. h.3 v ∙ ap (Map.put up v) (sym (put_all-upstream q up d))) in
        let registry = settled ∙ ap (λ x. settle_set up names (put_all q up x)) (sym added) in
        ap
          (λ x.
            let done = serve_tools equal up raw tools x in
            (record done.0 { registry = settle_set up names done.0.registry }, done.1))
          dropped
        ∙ ((λ i. (record { registry = registry i; server = sym served i }, h.4 i))
            ∙ sym (sync-form s))

-- registerUpstreamTools, whose loops stand on their own, does for the tools that the upstream allows and
-- the gateway does not reserve just what the shared registry algorithm does: the same registry, the same
-- tools on the server and the same collisions.
pub register_upstream_tools-register :
    (path_match : Text → Text → Bool) (g : Gateway) (equal : Option Tool → Tool → Bool)
    (s : Served Tool) (u : UpstreamConfig) (tools : List Tool)
    → register_upstream_tools path_match g equal s u tools
      ≡ register
          (λ t. t.name)
          (final_tool u.tools)
          equal
          (namespace_name u.tools.prefix)
          s
          u.name
          (keep (is_registered path_match g u.tools) tools)
unfolding register_upstream_tools register Map.get
register_upstream_tools-register path_match g equal s u tools =
    let served = keep (is_registered path_match g u.tools) tools in
    let final = namespace_name u.tools.prefix in
    let name = λ (t : Tool). t.name in
    let payloads = payloads_by_final name (final_tool u.tools) final served [] in
    ap (λ (m : ToolMaps). loops equal u.name m.tool_by_final m.raw_name_by_final m.new_set s)
      (collect_tools-keep path_match g u.tools tools
        (record { tool_by_final = []; raw_name_by_final = []; new_set = [] }))
    ∙ loops-sync equal u.name payloads (raw_by_final name (final_tool u.tools) final served [])
        (new_set name (final_tool u.tools) final served [])
        (payloads_by_final-IsMap name (final_tool u.tools) final served [] tt)
        (λ n. new_set-payloads name (final_tool u.tools) final served [] [] n refl) s
