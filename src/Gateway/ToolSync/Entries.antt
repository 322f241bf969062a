-- ===== src/Gateway/ToolSync/Entries.antt =====
-- internal/gateway/gateway.go: the tools that registerUpstreamTools collects, and those that are due.
use gooners.Base.{
  ◌≡◌, refl, sym, ap, ◌∙◌, inl, inr, Bool, false, Option, some, List, [], ◌∷◌, arith, if◌then◌else◌,
  nat_eq, ==-self, list_beq_iff, list_eq, Bool-cases, Option-cases, keep, All, Text,
}
use gooners.Base.Map
use gooners.Base.Map.{Map}
use gooners.Base.Map.{IsMap, keys}
use gooners.Gateway.Registry.{Registry, Set, ensure_upstream, own_set, is_owner, gone, remove_all}
use gooners.Gateway.Registry.Laws.{contains-gone, final-remove_all, registered-remove_all}
use gooners.Gateway.Registry.Sync.{put_selected, payloads_by_final, raw_by_final, new_set}
use gooners.Gateway.Names.{namespace_name}
use gooners.Gateway.Scopes.{Gateway}
use gooners.Gateway.Tools.{Tool, ToolsConfig}
use gooners.Gateway.ToolSync.{ToolMaps, collect_tools, put_tool, is_registered, final_tool}
use gooners.Gateway.ToolSync.Merge.{put_map}
use gooners.Gateway.ToolSync.Rounds.{due, entry, Verdict, add, skip, collide, verdict}
use gooners.Gateway.ToolSync.Loop.{Agree}

pub collect_tools-keep :
    (path_match : Text → Text → Bool) (g : Gateway) (cfg : ToolsConfig) (tools : List Tool)
    (m : ToolMaps)
    → collect_tools path_match g cfg tools m ≡ (
        let served = keep (is_registered path_match g cfg) tools in
        let name = λ (t : Tool). t.name in
        record {
          tool_by_final =
              payloads_by_final name
                (final_tool cfg)
                (namespace_name cfg.prefix)
                served
                m.tool_by_final;
          raw_name_by_final =
              raw_by_final name
                (final_tool cfg)
                (namespace_name cfg.prefix)
                served
                m.raw_name_by_final;
          new_set = new_set name (final_tool cfg) (namespace_name cfg.prefix) served m.new_set;
        })
unfolding collect_tools payloads_by_final raw_by_final new_set
collect_tools-keep path_match g cfg [] m = refl
collect_tools-keep path_match g cfg (rt ∷ tools) m =
    elim (Bool-cases (is_registered path_match g cfg rt)) [
      | inl e ↦
          rw (e, collect_tools) (collect_tools-keep path_match g cfg tools (put_tool cfg rt m))
      | inr e ↦ rw (e, collect_tools) (collect_tools-keep path_match g cfg tools m)
    ]

ensure_upstream-old :
    (r : Registry Tool) (up : Text) (names : Set)
    → Map.get up r.upstream_registered ≡ some names
    → ensure_upstream r up ≡ r
unfolding ensure_upstream
ensure_upstream-old r up names e = rw (e, ensure_upstream) refl

pub ensure_upstream-twice :
    (r : Registry Tool) (up : Text)
    → ensure_upstream (ensure_upstream r up) up ≡ ensure_upstream r up
unfolding ensure_upstream
ensure_upstream-twice r up = elim (Option-cases (Map.get up r.upstream_registered)) [
  | inl e ↦
      let made : Map.get up (Map.put up [] r.upstream_registered) ≡ some [] =
        ground (arith, Map.get-put up up [] r.upstream_registered, ==-self up) in
      let r' = record r { upstream_registered = Map.put up [] r.upstream_registered } in
      let once : ensure_upstream r up ≡ r' = rw (e, ensure_upstream) refl in
      ap (λ x. ensure_upstream x up) once ∙ (ensure_upstream-old r' up [] made ∙ sym once)
  | inr (names, e) ↦ ap (λ x. ensure_upstream x up) (ensure_upstream-old r up names e)
]

pub own_set-final :
    (a b : Registry Tool) (up : Text) (names : Set)
    → a.final_to_upstream ≡ b.final_to_upstream
    → own_set a up names ≡ own_set b up names
unfolding own_set
own_set-final a b up [] h = refl
own_set-final a b up ((name, t) ∷ names) h =
    rw h
      (ap (λ x. if is_owner b up name then Map.put name tt x else x) (own_set-final a b up names h))

-- The entries that are due are some of the tools.
has-due :
    (equal : Option Tool → Tool → Bool) (up : Text) (r : Registry Tool) (tools : Map Text Tool)
    (n : Text)
    → Map.has n tools ≡ false
    → Map.has n (due equal up r tools) ≡ false
unfolding Map.get
has-due equal up r [] n h = h
has-due equal up r ((name, final) ∷ tools) n h = ground (arith, has-due equal up r tools n)

entry-IsMap :
    (v : Verdict) (name : Text) (final : Tool) (xs : Map Text Tool)
    → Map.has name xs ≡ false
    → IsMap xs
    → IsMap (entry v name final xs)
entry-IsMap add name final xs h d = (h, d)
entry-IsMap skip name final xs h d = d
entry-IsMap (collide owner) name final xs h d = d

pub due-IsMap :
    (equal : Option Tool → Tool → Bool) (up : Text) (r : Registry Tool) (tools : Map Text Tool)
    → IsMap tools
    → IsMap (due equal up r tools)
due-IsMap equal up r [] d = d
due-IsMap equal up r ((name, final) ∷ tools) d =
    entry-IsMap
      (verdict equal up (Map.get name r.final_to_upstream) (Map.get name r.registered) final) name
      final (due equal up r tools) (has-due equal up r tools name d.0)
      (due-IsMap equal up r tools d.1)

-- Entries that a map holds.
abbrev IsFound : Map Text Tool → Map Text Tool → Type 0
IsFound tools xs = All (λ x. Map.get x.0 tools ≡ some x.1) xs

IsFound-cons :
    (name : Text) (final : Tool) (tools xs : Map Text Tool)
    → Map.has name tools ≡ false
    → IsFound tools xs
    → IsFound ((name, final) ∷ tools) xs
unfolding Map.get
IsFound-cons name final tools [] h f = tt
IsFound-cons name final tools ((k, v) ∷ xs) h f =
    (ground (arith, f.0, h, list_beq_iff name k), IsFound-cons name final tools xs h f.1)

entry-IsFound :
    (v : Verdict) (name : Text) (final : Tool) (tools xs : Map Text Tool)
    → Map.get name tools ≡ some final
    → IsFound tools xs
    → IsFound tools (entry v name final xs)
entry-IsFound add name final tools xs h f = (h, f)
entry-IsFound skip name final tools xs h f = f
entry-IsFound (collide owner) name final tools xs h f = f

pub due-IsFound :
    (equal : Option Tool → Tool → Bool) (up : Text) (r : Registry Tool) (tools : Map Text Tool)
    → IsMap tools
    → IsFound tools (due equal up r tools)
unfolding Map.get
due-IsFound equal up r [] d = tt
due-IsFound equal up r ((name, final) ∷ tools) d =
    entry-IsFound
      (verdict equal up (Map.get name r.final_to_upstream) (Map.get name r.registered) final) name
      final ((name, final) ∷ tools) (due equal up r tools) (ground (arith, ==-self name))
      (IsFound-cons name final tools (due equal up r tools) d.0 (due-IsFound equal up r tools d.1))

pub put_selected-put_map :
    (tools xs m : Map Text Tool) → IsFound tools xs → put_selected tools (keys xs) m ≡ put_map xs m
unfolding put_selected
put_selected-put_map tools [] m f = refl
put_selected-put_map tools ((k, v) ∷ xs) m f =
    rw (f.0, put_selected) (put_selected-put_map tools xs (Map.put k v m) f.1)

-- Removing the names that are gone leaves what is known of the others.
pub gone-Agree :
    (up : Text) (r : Registry Tool) (prev : Set) (tools xs : Map Text Tool)
    → IsFound tools xs
    → Agree xs (remove_all r up (gone prev tools)) r
gone-Agree up r prev tools [] f = tt
gone-Agree up r prev tools ((k, v) ∷ xs) f =
    let kept = contains-gone prev tools k in
    (
      ground (arith, final-remove_all r up (gone prev tools) k, kept, f.0),
      ground (arith, registered-remove_all r up (gone prev tools) k, kept, f.0),
      gone-Agree up r prev tools xs f.1,
    )

pub self-IsFound : (tools : Map Text Tool) → IsMap tools → IsFound tools tools
unfolding Map.get
self-IsFound [] d = tt
self-IsFound ((name, final) ∷ tools) d =
    (ground (arith, ==-self name), IsFound-cons name final tools tools d.0 (self-IsFound tools d.1))
