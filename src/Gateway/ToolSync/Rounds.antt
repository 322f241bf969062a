-- ===== src/Gateway/ToolSync/Rounds.antt =====
-- internal/gateway/gateway.go: the loops of registerUpstreamTools against those of the feature
-- registry.
use gooners.Base.{
  ◌≡◌, refl, sym, ◌∙◌, inl, inr, Bool, not, Option, none, some, List, [], ◌∷◌, ◌++◌, map, arith,
  if◌then◌else◌, ◌==◌, nat_eq, list_eq, Bool-cases, get_or, Text,
}
use gooners.Base.Map
use gooners.Base.Map.{Map}
use gooners.Base.Map.{IsMap, keys}
use gooners.Gateway.Registry.{
  Registry, Collision, Set, put_one, classify, gone, remove_all, put_all,
}
use gooners.Gateway.Registry.Sync.{Served, unserve}
use gooners.Gateway.Tools.{Tool}
use gooners.Gateway.ToolSync.{drop_gone, drop_tool, serve_tool, marked, add_tool}
use gooners.Gateway.ToolSync.Merge.{put_map}

-- What a round does with a name, from its owner and the tool that is registered under it.
pub data Verdict : Type 0 where
  add skip : Verdict
  collide : Text → Verdict

abbrev pub verdict : (Option Tool → Tool → Bool) → Text → Option Text → Option Tool → Tool → Verdict
verdict equal up none prev final = add
verdict equal up (some owner) prev final =
    if not (owner == up) then collide owner else if not (equal prev final) then add else skip

abbrev pub entry : Verdict → Text → Tool → Map Text Tool → Map Text Tool
entry add name final rest = (name, final) ∷ rest
entry skip name final rest = rest
entry (collide owner) name final rest = rest

-- The entries that diff finds new or changed.
abbrev pub due : (Option Tool → Tool → Bool) → Text → Registry Tool → Map Text Tool → Map Text Tool
due equal up r [] = []
due equal up r ((name, final) ∷ tools) =
    entry (verdict equal up (Map.get name r.final_to_upstream) (Map.get name r.registered) final)
      name final (due equal up r tools)

abbrev pub clashes : Map Text Text → Text → Verdict → List Collision
clashes raw name add = []
clashes raw name skip = []
clashes raw name (collide owner) =
    record { upstream = owner; tool = get_or (Map.get name raw) name; result_name = name } ∷ []

abbrev pub acted : Text → Text → Tool → Verdict → Served Tool → Served Tool
acted up name final add s = marked up name (add_tool up name final s)
acted up name final skip s = marked up name s
acted up name final (collide owner) s = s

module _ (equal : Option Tool → Tool → Bool) (up : Text) (raw : Map Text Text) where
  pub serve_tool-verdict :
      (name : Text) (final : Tool) (s : Served Tool)
      → serve_tool equal up raw name final s ≡ (
        acted up name final
            (verdict equal up
              (Map.get name s.registry.final_to_upstream)
              (Map.get name s.registry.registered)
              final)
            s,
        clashes raw name (
            verdict equal up
              (Map.get name s.registry.final_to_upstream)
              (Map.get name s.registry.registered)
              final),
      )
  unfolding serve_tool
  serve_tool-verdict name final s = ground arith

  pub classify-due :
      (r : Registry Tool) (tools : Map Text Tool)
      → (classify equal r up raw tools).to_add_or_change ≡ keys (due equal up r tools)
  unfolding classify
  classify-due r [] = refl
  classify-due r ((name, final) ∷ tools) = ground (arith, classify-due r tools)

  pub classify-clashes :
      (r : Registry Tool) (name : Text) (final : Tool) (tools : Map Text Tool)
      → (classify equal r up raw ((name, final) ∷ tools)).collisions
        ≡ clashes raw name
            (verdict equal up (Map.get name r.final_to_upstream) (Map.get name r.registered) final)
          ++ (classify equal r up raw tools).collisions
  unfolding classify
  classify-clashes r name final tools = ground arith

-- Removing the names that are gone, for two maps with the same keys.
pub drop_gone-remove_all :
    (up : Text) (prev names : Set) (payloads : Map Text Tool) (s : Served Tool)
    → ((n : Text) → Map.has n names ≡ Map.has n payloads)
    → drop_gone up prev names s ≡ record {
      registry = remove_all s.registry up (gone prev payloads);
      server = unserve (gone prev payloads) s.server;
    }
unfolding drop_gone remove_all gone unserve
drop_gone-remove_all up [] names payloads s same = refl
drop_gone-remove_all up ((name, t) ∷ prev) names payloads s same =
    elim (Bool-cases (Map.has name names)) [
      | inl e ↦
          rw (e, drop_gone)
            (rw (sym (same name) ∙ e, gone) (drop_gone-remove_all up prev names payloads s same))
      | inr e ↦
          rw (e, drop_gone)
            (rw (sym (same name) ∙ e, gone)
              (drop_gone-remove_all up prev names payloads (drop_tool up name s) same))
    ]

pub put_all-final :
    (r : Registry Tool) (up : Text) (xs : Map Text Tool)
    → (put_all r up xs).final_to_upstream ≡ put_map (map (λ x. (x.0, up)) xs) r.final_to_upstream
unfolding put_all put_one
put_all-final r up [] = refl
put_all-final r up ((name, p) ∷ xs) = put_all-final (put_one r up name p) up xs

pub put_all-registered :
    (r : Registry Tool) (up : Text) (xs : Map Text Tool)
    → (put_all r up xs).registered ≡ put_map xs r.registered
unfolding put_all put_one
put_all-registered r up [] = refl
put_all-registered r up ((name, p) ∷ xs) = put_all-registered (put_one r up name p) up xs

pub put_all-upstream :
    (r : Registry Tool) (up : Text) (xs : Map Text Tool)
    → (put_all r up xs).upstream_registered ≡ r.upstream_registered
unfolding put_all put_one
put_all-upstream r up [] = refl
put_all-upstream r up ((name, p) ∷ xs) = put_all-upstream (put_one r up name p) up xs
