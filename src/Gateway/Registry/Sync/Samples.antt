-- ===== src/Gateway/Registry/Sync/Samples.antt =====
-- A run of feature_registry.go on two upstreams, and its theorems at that run.
use gooners.Gateway.Registry.{
  ensure_upstream, ensure_upstream, own_set, put_all, remove_all, apply, gone, classify,
}
use gooners.Gateway.Registry.Sync.Consistent.{final-register, register-IsConsistent}
use gooners.Gateway.Registry.Sync.Pointwise.{IsConsistent}
use gooners.Gateway.Registry.Sync.{
  diff, unserve, put_selected, new_set, raw_by_final, payloads_by_final, sync, register, Served,
}
use gooners.Gateway.Names.{namespace_name}
use gooners.Base.{
  ◌≡◌, refl, Bool, false, Option, none, some, [], ◌∷◌, ◌==◌, nat_eq, list_eq, Text, text,
}
use gooners.Base.Map
use gooners.Base.Map.{Map}

abbrev render : Text → Text → Text
render final raw = final

abbrev differ : Option Text → Text → Bool
differ none new = false
differ (some old) new = old == new

abbrev empty : Served Text
empty = record {
  registry = record { final_to_upstream = []; upstream_registered = []; registered = [] };
  server = [];
}

empty-IsConsistent : IsConsistent empty
unfolding Map.get
empty-IsConsistent = record { owned = λ up n. refl; backed = λ n. refl; served = λ n. refl }

-- The upstream a has served x and y.
after_a : Served Text
unfolding register sync payloads_by_final raw_by_final new_set put_selected unserve diff classify
    gone apply remove_all put_all own_set ensure_upstream namespace_name Map.get Map.put Map.delete
after_a =
    (register (λ s. s) render differ (namespace_name []) empty (text "a")
      (text "x" ∷ text "y" ∷ [])).0

after_a-IsConsistent : IsConsistent after_a
unfolding after_a
after_a-IsConsistent =
    register-IsConsistent (λ s. s) render (namespace_name []) differ empty (text "a")
      (text "x" ∷ text "y" ∷ []) empty-IsConsistent

register-IsConsistent_example :
    IsConsistent
      (register
        (λ s. s)
        render
        differ
        (namespace_name [])
        after_a
        (text "b")
        (text "y" ∷ text "z" ∷ [])).0
register-IsConsistent_example =
    register-IsConsistent (λ s. s) render (namespace_name []) differ after_a (text "b")
      (text "y" ∷ text "z" ∷ []) after_a-IsConsistent

-- The name y stays with a, though b lists it too.
final-register_example :
    Map.get
      (text "y")
      (register
        (λ s. s)
        render
        differ
        (namespace_name [])
        after_a
        (text "b")
        (text "y" ∷ text "z" ∷ [])).0.registry.final_to_upstream
    ≡ some (text "a")
unfolding after_a
final-register_example =
    final-register (λ s. s) render (namespace_name []) differ after_a (text "b")
      (text "y" ∷ text "z" ∷ []) after_a-IsConsistent (text "y")
