-- ===== src/Gateway/Identical/Samples.antt =====
-- Two upstreams that serve one item under one name.
use gooners.Base.{
  ℕ, ◌≡◌, refl, ◌↔◌, Bool, true, none, [], ◌∷◌, ◌==◌, nat_eq, list_eq, is_some, All, Text, text,
}
use gooners.Base.Map
use gooners.Base.Map.{Map}
use gooners.Gateway.Names.{CollisionsError}
use gooners.Gateway.Identical.{CollisionSet, new_collision_set, add, drop_identical, runs}
use gooners.Gateway.Identical.Runs.{
  IsApart, NotEmpty, Alike, OneName, flat, drop_identical-none_iff,
}

abbrev same : ℕ → ℕ → Bool
same a b = a == b

abbrev name_of : ℕ → Text
name_of n = text "doc"

abbrev set : ℕ → ℕ → CollisionSet ℕ
set a b =
    add (text "y") (b ∷ []) name_of (λ n. true)
      (add (text "x") (a ∷ []) name_of (λ n. true) (new_collision_set (text "resource")))

abbrev conflicts : CollisionsError
conflicts = record {
  kind = text "resource";
  conflicts =
      record { upstream = text "x"; tool = text "doc"; result_name = text "doc" }
      ∷ (record { upstream = text "y"; tool = text "doc"; result_name = text "doc" } ∷ []);
  counts = [];
}

drop_identical-none_iff_example :
    ((drop_identical same (set 4 4) conflicts ≡ none)
      ↔ All (Alike same (set 4 4)) (runs conflicts.conflicts))
    × (flat (runs conflicts.conflicts) ≡ conflicts.conflicts)
    × All OneName (runs conflicts.conflicts)
    × All NotEmpty (runs conflicts.conflicts)
    × IsApart (runs conflicts.conflicts)
drop_identical-none_iff_example = drop_identical-none_iff same (set 4 4) conflicts

identical_let_through : drop_identical same (set 4 4) conflicts ≡ none
unfolding drop_identical add new_collision_set Map.get Map.put
identical_let_through = refl

different_reported : is_some (drop_identical same (set 4 5) conflicts) ≡ true
unfolding drop_identical add new_collision_set Map.get Map.put
different_reported = refl
