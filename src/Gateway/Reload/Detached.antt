-- ===== src/Gateway/Reload/Detached.antt =====
-- internal/gateway/reload.go: what detachUpstream leaves of an upstream.
use gooners.Base.{
  list_beq_sound, ◌≡◌, refl, sym, ap, ◌∙◌, inl, inr, Bool, false, Option, none, some, List, [],
  arith, if◌then◌else◌, ◌==◌, nat_eq, ==-self, list_eq, Bool-cases, Text,
}
use gooners.Base.Map
use gooners.Base.Map.{Map}
use mathlib.Core.Path.{subst}
use gooners.Base.Map.{IsMap}
use gooners.Gateway.Registry.{Collision, is_owner, owns}
use gooners.Gateway.Registry.Sync.{Served, sync, register, payloads_by_final, raw_by_final, new_set}
use gooners.Gateway.Registry.Sync.Pointwise.{IsConsistent, next_owner, final-sync}
use gooners.Gateway.Registry.Sync.Consistent.{sync-IsConsistent}
use gooners.Gateway.Tools.{Tool}
use gooners.Gateway.Features.{
  register_upstream_prompts, register_upstream_resources, register_upstream_resource_templates,
}
use gooners.Gateway.ToolSync.Mirror.{register_upstream_tools-register}
use gooners.Gateway.Reload.Live.{
  Compare, Upstream, Live, built, others, forget, register_all, detach_upstream,
}
use gooners.Gateway.Reload.Routes.{remove_route-built}

next_owner-none :
    (owner : Option Text) (up : Text)
    → next_owner owner up false ≡ (if owns owner up then none else owner)
next_owner-none none up = refl
next_owner-none (some o) up = ground arith

not_owner : (owner : Option Text) (up : Text) → owns (next_owner owner up false) up ≡ false
not_owner none up = refl
not_owner (some o) up = ground arith

module _ {ℓ} {T : Type ℓ} where
  -- The registry is consistent, the upstream owns nothing and has no set, and the names of others are
  -- owned as before.
  abbrev pub IsFreed : Text → Served T → Served T → Type ℓ
  IsFreed up s t =
      IsConsistent t
      × (Map.get up t.registry.upstream_registered ≡ none)
      × ((n : Text)
          → Map.get n t.registry.final_to_upstream
            ≡ (if is_owner s.registry up n then none else Map.get n s.registry.final_to_upstream))

  forget-IsFreed :
      (up : Text) (s t : Served T)
      → IsConsistent t
      → ((n : Text)
          → Map.get n t.registry.final_to_upstream
            ≡ next_owner (Map.get n s.registry.final_to_upstream) up false)
      → IsFreed up s (forget up t)
  unfolding Map.get
  forget-IsFreed up s t c owner = (
    record {
      owned = λ who n. elim (Bool-cases (up == who)) [
        | inl e ↦
            let same = list_beq_sound up who e in
            rw (Map.get-delete up who t.registry.upstream_registered, e)
              (sym (
                ap (λ x. owns x who) (owner n)
                ∙ (ap (λ x. owns (next_owner (Map.get n s.registry.final_to_upstream) up false) x)
                      (sym same)
                    ∙ not_owner (Map.get n s.registry.final_to_upstream) up)))
        | inr e ↦ rw (Map.get-delete up who t.registry.upstream_registered, e) (c.owned who n)
      ];
      backed = c.backed;
      served = c.served;
    },
    ground (arith, Map.get-delete up up t.registry.upstream_registered, ==-self up),
    λ n. owner n ∙ next_owner-none (Map.get n s.registry.final_to_upstream) up,
  )

  sync-IsFreed :
      (equal : Option T → T → Bool) (up : Text) (s : Served T)
      → IsConsistent s
      → IsFreed up s (forget up (sync equal s up [] [] []).0)
  unfolding Map.get
  sync-IsFreed equal up s c =
      forget-IsFreed up s (sync equal s up [] [] []).0
        (sync-IsConsistent equal up [] [] [] tt (λ n. refl) s c)
        (λ n. final-sync equal up [] [] [] tt s n c)

-- Detaching an upstream from four consistent registries leaves them consistent. In each the upstream
-- owns no name and has no set, and every name of another upstream keeps its owner. Where the router is
-- the one that the table of routes gives, no route of the upstream is left, the other routes are, and
-- the router is again the one that the table gives.
pub detach_upstream-IsFreed :
    (c : Compare) (u : Upstream) (g : Live)
    → IsConsistent g.tools
    → IsConsistent g.prompts
    → IsConsistent g.resources
    → IsConsistent g.templates
    → g.routes ≡ built g.routes.table
    → IsFreed u.cfg.upstream.name g.tools (detach_upstream c u g).tools
      × IsFreed u.cfg.upstream.name g.prompts (detach_upstream c u g).prompts
      × IsFreed u.cfg.upstream.name g.resources (detach_upstream c u g).resources
      × IsFreed u.cfg.upstream.name g.templates (detach_upstream c u g).templates
      × ((detach_upstream c u g).routes ≡ built (others u.cfg.upstream.name g.routes.table))
unfolding detach_upstream register_all register_upstream_prompts register_upstream_resources
    register_upstream_resource_templates register payloads_by_final raw_by_final new_set
detach_upstream-IsFreed c u g tools prompts resources templates routes =
    let cfg = u.cfg.upstream in
    let mirror = register_upstream_tools-register c.path_match c.own c.tool_equal g.tools cfg [] in
    (
      subst {A = Served Tool × List Collision} (λ x. IsFreed cfg.name g.tools (forget cfg.name x.0))
          (sym mirror) (sync-IsFreed c.tool_equal cfg.name g.tools tools),
      sync-IsFreed c.prompt_equal cfg.name g.prompts prompts,
      sync-IsFreed c.resource_equal cfg.name g.resources resources,
      sync-IsFreed c.template_equal cfg.name g.templates templates,
      remove_route-built cfg.name g.routes routes,
    )
