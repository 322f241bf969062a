-- ===== src/Gateway/ToolSync/Loop.antt =====
-- internal/gateway/gateway.go: what the rounds of registerUpstreamTools over the tools leave.
use gooners.Base.{
  ◌≡◌, refl, sym, ap, ◌∙◌, Bool, false, Option, List, [], ◌∷◌, ◌++◌, map, arith, nat_eq,
  list_beq_iff, list_eq, Text,
}
use gooners.Base.Map
use gooners.Base.Map.{Map}
use mathlib.Core.Path.{subst}
use gooners.Base.Map.{IsMap, keys}
use gooners.Gateway.Registry.{Registry, Collision, Set, names_of, put_one, classify}
use gooners.Gateway.Registry.Sync.{Served}
use gooners.Gateway.Tools.{Tool}
use gooners.Gateway.ToolSync.{serve_tool, serve_tools, marked, add_tool}
use gooners.Gateway.ToolSync.Merge.{put_map, put-put}
use gooners.Gateway.ToolSync.Rounds.{
  Verdict, add, skip, collide, verdict, entry, due, clashes, acted, serve_tool-verdict,
  classify-clashes,
}

-- Two registries say the same of the names of some tools.
abbrev pub Agree : Map Text Tool → Registry Tool → Registry Tool → Type 0
Agree [] a b = Unit
Agree ((name, final) ∷ tools) a b =
    (Map.get name a.final_to_upstream ≡ Map.get name b.final_to_upstream)
    × (Map.get name a.registered ≡ Map.get name b.registered)
    × Agree tools a b

abbrev pub owners : Text → Map Text Tool → Map Text Text
owners up xs = map (λ x. (x.0, up)) xs

Agree-add :
    (up name : Text) (final : Tool) (tools : Map Text Tool) (s : Served Tool) (r : Registry Tool)
    → Map.has name tools ≡ false
    → Agree tools s.registry r
    → Agree tools (marked up name (add_tool up name final s)).registry r
unfolding put_one Map.get
Agree-add up name final [] s r h a = tt
Agree-add up name final ((other, t) ∷ tools) s r h a = (
  ground (
    arith,
    Map.get-put name other up s.registry.final_to_upstream,
    list_beq_iff other name,
    list_beq_iff name other,
    a.0,
  ),
  ground (
    arith,
    Map.get-put name other final s.registry.registered,
    list_beq_iff other name,
    list_beq_iff name other,
    a.1,
  ),
  Agree-add up name final tools s r (ground arith) a.2,
)

Agree-same :
    (up name : Text) (tools : Map Text Tool) (s : Served Tool) (r : Registry Tool)
    → Agree tools s.registry r
    → Agree tools (marked up name s).registry r
Agree-same up name [] s r a = tt
Agree-same up name ((other, t) ∷ tools) s r a = (a.0, a.1, Agree-same up name tools s r a.2)

Agree-acted :
    (up name : Text) (final : Tool) (v : Verdict) (tools : Map Text Tool) (s : Served Tool)
    (r : Registry Tool)
    → Map.has name tools ≡ false
    → Agree tools s.registry r
    → Agree tools (acted up name final v s).registry r
Agree-acted up name final add tools s r h a = Agree-add up name final tools s r h a
Agree-acted up name final skip tools s r h a = Agree-same up name tools s r a
Agree-acted up name final (collide owner) tools s r h a = a

-- What the rounds leave is what the entries that are due make of the state.
abbrev pub IsServed :
    Text → Map Text Tool → List Collision → Served Tool → Served Tool × List Collision → Type 0
IsServed up xs collisions s out =
    (out.0.server ≡ put_map xs s.server)
    × (out.0.registry.final_to_upstream ≡ put_map (owners up xs) s.registry.final_to_upstream)
    × (out.0.registry.registered ≡ put_map xs s.registry.registered)
    × ((v : Set)
        → Map.put up v out.0.registry.upstream_registered
          ≡ Map.put up v s.registry.upstream_registered)
    × (out.1 ≡ collisions)

round-IsServed :
    (up name : Text) (raw : Map Text Text) (final : Tool) (v : Verdict) (xs : Map Text Tool)
    (collisions : List Collision) (s : Served Tool) (out : Served Tool × List Collision)
    → IsServed up xs collisions (acted up name final v s) out
    → IsServed up
        (entry v name final xs)
        (clashes raw name v ++ collisions)
        s
        (out.0, clashes raw name v ++ out.1)
unfolding put_one
round-IsServed up name raw final add xs collisions s out h = (
  h.0,
  h.1,
  h.2,
  (λ v.
      h.3 v
      ∙ put-put up v (Map.put name tt (names_of s.registry up)) s.registry.upstream_registered),
  h.4,
)
round-IsServed up name raw final skip xs collisions s out h = (
  h.0,
  h.1,
  h.2,
  (λ v.
      h.3 v
      ∙ put-put up v (Map.put name tt (names_of s.registry up)) s.registry.upstream_registered),
  h.4,
)
round-IsServed up name raw final (collide owner) xs collisions s out h =
    (h.0, h.1, h.2, h.3, ap (λ x. clashes raw name (collide owner) ++ x) h.4)

module _ (equal : Option Tool → Tool → Bool) (up : Text) (raw : Map Text Text)
    (r : Registry Tool) where
  abbrev after_round : Map Text Tool → Served Tool × List Collision → Served Tool × List Collision
  after_round tools one =
      let rest = serve_tools equal up raw tools one.0 in (rest.0, one.1 ++ rest.1)

  serve_tools-round :
      (name : Text) (final : Tool) (tools : Map Text Tool) (s : Served Tool)
      → serve_tools equal up raw ((name, final) ∷ tools) s
        ≡ after_round tools (serve_tool equal up raw name final s)
  unfolding serve_tools
  serve_tools-round name final tools s = refl

  pub serve_tools-IsServed :
      (tools : Map Text Tool) (s : Served Tool)
      → IsMap tools
      → Agree tools s.registry r
      → IsServed up
          (due equal up r tools)
          (classify equal r up raw tools).collisions
          s
          (serve_tools equal up raw tools s)
  unfolding serve_tools classify
  serve_tools-IsServed [] s d a = (refl, refl, refl, (λ v. refl), refl)
  serve_tools-IsServed ((name, final) ∷ tools) s d a =
      let v =
        verdict equal up (Map.get name r.final_to_upstream) (Map.get name r.registered) final in
      let one : serve_tool equal up raw name final s
          ≡ (acted up name final v s, clashes raw name v) =
        serve_tool-verdict equal up raw name final s
        ∙ ap (λ x. (acted up name final x s, clashes raw name x))
            (λ i. verdict equal up (a.0 i) (a.1 i) final) in
      let rest =
        serve_tools-IsServed tools (acted up name final v s) d.1
          (Agree-acted up name final v tools s r d.0 a.2) in
      let whole = serve_tools-round name final tools s ∙ ap (after_round tools) one in
      subst {A = List Collision × (Served Tool × List Collision)}
        (λ x. IsServed up (due equal up r ((name, final) ∷ tools)) x.0 s x.1)
        (λ i. (sym (classify-clashes equal up raw r name final tools) i, sym whole i))
        (round-IsServed up name raw final v (due equal up r tools)
          (classify equal r up raw tools).collisions s
          (serve_tools equal up raw tools (acted up name final v s)) rest)
