-- ===== src/Gateway/Identical.antt =====
-- internal/gateway/ns.go: collisions among identical definitions, which are let through.
pub mod Runs
mod Samples
use gooners.Base.{
  ℕ, zero, suc, ◌+◌, ◌-◌, ◌*◌, ◌≤◌, ◌<◌, ◌≡◌, refl, sym, ap, ◌∙◌, ◌≢◌, ◌↔◌, ◌⊎◌, inl, inr, Bool,
  true, false, not, ◌&&◌, ◌||◌, Option, none, some, List, [], ◌∷◌, ◌++◌, map, arith, ltb, leb,
  nat_beq, if◌then◌else◌, Eq, ◌==◌, nat_eq, ==-self, list_beq, list_beq_iff, list_eq, Bool-cases,
  Option-cases, length, get_elem?, take, drop, keep, is_empty, get_or, is_some, or_else,
  length-append, length-keep-le, keep-append, All, All-append, contains, count, contains-append,
  contains-keep, Text, text, to_lower, has_prefix, has_infix, has_suffix, trim_prefix,
  trim_prefix-append,
}
use gooners.Base.Map
use gooners.Base.Map.{Map}
use gooners.Gateway.Registry.{Collision}
use gooners.Gateway.Names.{CollisionsError, detect_collisions, tools_of}

-- collisionSet, whose `equal` is an argument of the functions that use it.
pub record CollisionSet {ℓ} (T : Type ℓ) : Type ℓ where
  pub kind : Text
  pub sets : Map Text (List Text)
  pub by_upstream : Map Text (Map Text T)

module _ {ℓ} {T : Type ℓ} where
  unfoldable pub new_collision_set : Text → CollisionSet T
  new_collision_set kind = record { kind = kind; sets = []; by_upstream = [] }

  -- The loop of add: the names in order, and the items by name.
  unfoldable pub add_items :
      (T → Text) → (T → Bool) → List T → List Text × Map Text T → List Text × Map Text T
  add_items name keep_item [] acc = acc
  add_items name keep_item (x ∷ items) (names, by_name) =
      if not (keep_item x)
      then add_items name keep_item items (names, by_name)
      else add_items name keep_item items (names ++ (name x ∷ []), Map.put (name x) x by_name)

  -- The set of an upstream gets an entry when something is added to it; a list without an item that
  -- stays gives it none.
  unfoldable pub add : Text → List T → (T → Text) → (T → Bool) → CollisionSet T → CollisionSet T
  unfolding add_items
  add upstream items name keep_item c =
      let (names, by_name) = add_items name keep_item items (tools_of c.sets upstream, []) in
      record c {
        sets = if length names == 0 then c.sets else Map.put upstream names c.sets;
        by_upstream = Map.put upstream by_name c.by_upstream;
      }

  abbrev pub item_of : CollisionSet T → Collision → Option T
  item_of c cf = Map.get cf.tool (get_or (Map.get cf.upstream c.by_upstream) [])

  -- The loop of identicalGroup, from the first item on.
  unfoldable pub identical_to : (T → T → Bool) → CollisionSet T → Option T → List Collision → Bool
  identical_to equal c first [] = true
  identical_to equal c first (cf ∷ group) = elim (item_of c cf) [
    | none ↦ false
    | some item ↦ elim first [
      | none ↦ identical_to equal c (some item) group
      | some f ↦ if not (equal f item) then false else identical_to equal c (some f) group
    ]
  ]

  unfoldable pub identical_group : (T → T → Bool) → CollisionSet T → List Collision → Bool
  unfolding identical_to
  identical_group equal c group = identical_to equal c none group

-- The maximal runs of conflicts with one result name, which the outer loop of dropIdentical goes over.
unfoldable pub prepend : Collision → List (List Collision) → List (List Collision)
prepend cf [] = (cf ∷ []) ∷ []
prepend cf ([] ∷ groups) = (cf ∷ []) ∷ groups
prepend cf ((d ∷ group) ∷ groups) =
    if d.result_name == cf.result_name
    then (cf ∷ d ∷ group) ∷ groups
    else (cf ∷ []) ∷ (d ∷ group) ∷ groups

unfoldable pub runs : List Collision → List (List Collision)
unfolding prepend
runs [] = []
runs (cf ∷ conflicts) = prepend cf (runs conflicts)

module _ {ℓ} {T : Type ℓ} where
  -- The groups that are not identical.
  unfoldable pub hard_conflicts :
      (T → T → Bool) → CollisionSet T → List (List Collision) → List Collision
  unfolding identical_group
  hard_conflicts equal c [] = []
  hard_conflicts equal c (group ∷ groups) =
      let rest = hard_conflicts equal c groups in
      if identical_group equal c group then rest else group ++ rest

  unfoldable pub hard_counts : CollisionSet T → List Collision → Map Text ℕ → Map Text ℕ
  hard_counts c [] counts = counts
  hard_counts c (cf ∷ conflicts) counts = hard_counts c conflicts (
      if Map.has cf.upstream counts
      then counts
      else Map.put cf.upstream (length (get_or (Map.get cf.upstream c.by_upstream) [])) counts)

  unfoldable pub drop_identical :
      (T → T → Bool) → CollisionSet T → CollisionsError → Option CollisionsError
  unfolding runs hard_conflicts hard_counts
  drop_identical equal c ce =
      let hard = hard_conflicts equal c (runs ce.conflicts) in
      if length hard == 0
      then none
      else some (record { kind = c.kind; conflicts = hard; counts = hard_counts c hard [] })

  unfoldable pub check : (T → T → Bool) → CollisionSet T → Map Text Text → Option CollisionsError
  unfolding drop_identical
  check equal c prefixes = elim (detect_collisions c.kind prefixes c.sets) [
    | none ↦ none
    | some ce ↦ drop_identical equal c ce
  ]
