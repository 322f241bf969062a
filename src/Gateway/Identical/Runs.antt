-- ===== src/Gateway/Identical/Runs.antt =====
-- dropIdentical of internal/gateway/ns.go: which conflicts are kept.
use Prim.{⊥}
use gooners.Base.{
  ◌≢◌, ◌≡◌, refl, sym, ap, ◌∙◌, ◌↔◌, inl, inr, Bool, true, false, none, some, List, [], ◌∷◌, ◌++◌,
  arith, ◌==◌, nat_eq, list_beq_iff, list_eq, Bool-cases, Option-cases, length, is_empty, All, Text,
}
use gooners.Gateway.Registry.{Collision}
use gooners.Gateway.Names.{CollisionsError}
use gooners.Gateway.Identical.{
  CollisionSet, item_of, identical_to, identical_group, prepend, runs, hard_conflicts,
  drop_identical,
}

abbrev pub flat : List (List Collision) → List Collision
flat [] = []
flat (g ∷ gs) = g ++ flat gs

flat-prepend : (cf : Collision) (gs : List (List Collision)) → flat (prepend cf gs) ≡ cf ∷ flat gs
unfolding prepend
flat-prepend cf [] = refl
flat-prepend cf ([] ∷ gs) = refl
flat-prepend cf ((d ∷ g) ∷ gs) = elim (Bool-cases (d.result_name == cf.result_name)) [
  | inl e ↦ rw e refl
  | inr e ↦ rw e refl
]

-- The runs are the conflicts, in their order.
flat-runs : (cs : List Collision) → flat (runs cs) ≡ cs
unfolding runs
flat-runs [] = refl
flat-runs (cf ∷ cs) = flat-prepend cf (runs cs) ∙ ap (λ l. cf ∷ l) (flat-runs cs)

-- A run has one result name.
abbrev pub Named : Text → List Collision → Type 0
Named name group = All (λ cf. cf.result_name ≡ name) group

abbrev pub OneName : List Collision → Type 0
OneName group = (name : Text) × Named name group

prepend-OneName :
    (cf : Collision) (gs : List (List Collision)) → All OneName gs → All OneName (prepend cf gs)
unfolding prepend
prepend-OneName cf [] h = ((cf.result_name, (refl, tt)), tt)
prepend-OneName cf ([] ∷ gs) h = ((cf.result_name, (refl, tt)), h.1)
prepend-OneName cf ((d ∷ g) ∷ gs) ((name, named), h) =
    elim (Bool-cases (d.result_name == cf.result_name)) [
      | inl e ↦
          rw e ((name, (sym ((list_beq_iff d.result_name cf.result_name).0 e) ∙ named.0, named)), h)
      | inr e ↦ rw e ((cf.result_name, (refl, tt)), ((name, named), h))
    ]

runs-OneName : (cs : List Collision) → All OneName (runs cs)
unfolding runs
runs-OneName [] = tt
runs-OneName (cf ∷ cs) = prepend-OneName cf (runs cs) (runs-OneName cs)

abbrev pub NotEmpty : List Collision → Type 0
NotEmpty group = is_empty group ≡ false

prepend-NotEmpty :
    (cf : Collision) (gs : List (List Collision)) → All NotEmpty gs → All NotEmpty (prepend cf gs)
unfolding prepend
prepend-NotEmpty cf [] h = (refl, tt)
prepend-NotEmpty cf ([] ∷ gs) h = (refl, h.1)
prepend-NotEmpty cf ((d ∷ g) ∷ gs) h = elim (Bool-cases (d.result_name == cf.result_name)) [
  | inl e ↦ rw e (refl, h.1)
  | inr e ↦ rw e (refl, h)
]

runs-NotEmpty : (cs : List Collision) → All NotEmpty (runs cs)
unfolding runs
runs-NotEmpty [] = tt
runs-NotEmpty (cf ∷ cs) = prepend-NotEmpty cf (runs cs) (runs-NotEmpty cs)

-- A run starts with another result name than the run before it.
abbrev pub Differs : List Collision → List Collision → Type 0
Differs (cf ∷ _) (d ∷ _) = cf.result_name ≢ d.result_name
Differs _ _ = Unit

abbrev pub IsApart : List (List Collision) → Type 0
IsApart [] = Unit
IsApart (g ∷ []) = Unit
IsApart (g ∷ h ∷ gs) = Differs g h × IsApart (h ∷ gs)

-- What is in front of the first run does not matter to the runs after it.
IsApart-longer :
    (cf d : Collision) (g : List Collision) (gs : List (List Collision))
    → cf.result_name ≡ d.result_name
    → IsApart ((d ∷ g) ∷ gs)
    → IsApart ((cf ∷ d ∷ g) ∷ gs)
IsApart-longer cf d g [] same h = tt
IsApart-longer cf d g ([] ∷ gs) same h = h
IsApart-longer cf d g ((x ∷ l) ∷ gs) same (h, hs) = (λ e. h (sym same ∙ e), hs)

IsApart-prepend :
    (cf : Collision) (gs : List (List Collision))
    → All NotEmpty gs
    → IsApart gs
    → IsApart (prepend cf gs)
unfolding prepend
IsApart-prepend cf [] n h = tt
IsApart-prepend cf ([] ∷ gs) n h = let no : ⊥ = ground (arith, n.0) in elim no [ ]
IsApart-prepend cf ((d ∷ g) ∷ gs) n h = elim (Bool-cases (d.result_name == cf.result_name)) [
  | inl e ↦
      rw e (IsApart-longer cf d g gs (sym ((list_beq_iff d.result_name cf.result_name).0 e)) h)
  | inr e ↦ rw e ((λ same. ground (arith, e, same, list_beq_iff d.result_name cf.result_name)), h)
]

runs-IsApart : (cs : List Collision) → IsApart (runs cs)
unfolding runs
runs-IsApart [] = tt
runs-IsApart (cf ∷ cs) = IsApart-prepend cf (runs cs) (runs-NotEmpty cs) (runs-IsApart cs)

module _ {ℓ} {T : Type ℓ} (equal : T → T → Bool) (c : CollisionSet T) where
  -- The items of a group are known, and each of them equals the item of the first conflict.
  abbrev pub SameAs : T → List Collision → Type ℓ
  SameAs f group = All (λ cf. (item : T) × (item_of c cf ≡ some item) × (equal f item ≡ true)) group

  abbrev pub Alike : List Collision → Type ℓ
  Alike [] = Unit
  Alike (cf ∷ group) = (f : T) × (item_of c cf ≡ some f) × SameAs f group

  identical_to-SameAs :
      (f : T) (group : List Collision) → identical_to equal c (some f) group ≡ true → SameAs f group
  unfolding identical_to
  identical_to-SameAs f [] h = tt
  identical_to-SameAs f (cf ∷ group) h = elim (Option-cases (item_of c cf)) [
    | inl e ↦ ground (arith, e, h)
    | inr (item, e) ↦
        ((item, e, ground (arith, e, h)), identical_to-SameAs f group (ground (arith, e, h)))
  ]

  SameAs-identical_to :
      (f : T) (group : List Collision) → SameAs f group → identical_to equal c (some f) group ≡ true
  unfolding identical_to
  SameAs-identical_to f [] h = refl
  SameAs-identical_to f (cf ∷ group) ((item, e, q), h) =
      ground (arith, e, q, SameAs-identical_to f group h)

  identical_group-Alike :
      (group : List Collision) → identical_group equal c group ≡ true → Alike group
  unfolding identical_group identical_to
  identical_group-Alike [] h = tt
  identical_group-Alike (cf ∷ group) h = elim (Option-cases (item_of c cf)) [
    | inl e ↦ ground (arith, e, h)
    | inr (f, e) ↦ (f, e, identical_to-SameAs f group (ground (arith, e, h)))
  ]

  Alike-identical_group :
      (group : List Collision) → Alike group → identical_group equal c group ≡ true
  unfolding identical_group identical_to
  Alike-identical_group [] h = refl
  Alike-identical_group (cf ∷ group) (f, e, h) = ground (arith, e, SameAs-identical_to f group h)

  hard_conflicts-none :
      (gs : List (List Collision)) → All NotEmpty gs → hard_conflicts equal c gs ≡ [] → All Alike gs
  unfolding hard_conflicts
  hard_conflicts-none [] n h = tt
  hard_conflicts-none ([] ∷ gs) n h = ground (arith, n.0)
  hard_conflicts-none ((cf ∷ g) ∷ gs) n h = elim (Bool-cases (identical_group equal c (cf ∷ g))) [
    | inl e ↦ (identical_group-Alike (cf ∷ g) e, hard_conflicts-none gs n.1 (ground (arith, e, h)))
    | inr e ↦ ground (arith, e, h)
  ]

  Alike-hard_conflicts :
      (gs : List (List Collision)) → All Alike gs → hard_conflicts equal c gs ≡ []
  unfolding hard_conflicts
  Alike-hard_conflicts [] h = refl
  Alike-hard_conflicts (g ∷ gs) (a, h) = rw (Alike-identical_group g a) (Alike-hard_conflicts gs h)

  is_nil : (cs : List Collision) → (length cs == 0) ≡ true → cs ≡ []
  is_nil [] h = refl
  is_nil (cf ∷ cs) h = ground (arith, h)

  drop_identical-hard :
      (ce : CollisionsError)
      → drop_identical equal c ce ≡ none
      → hard_conflicts equal c (runs ce.conflicts) ≡ []
  unfolding drop_identical
  drop_identical-hard ce h =
      elim (Bool-cases (length (hard_conflicts equal c (runs ce.conflicts)) == 0)) [
        | inl e ↦ is_nil (hard_conflicts equal c (runs ce.conflicts)) e
        | inr e ↦ ground (arith, e, h)
      ]

  hard-drop_identical :
      (ce : CollisionsError)
      → hard_conflicts equal c (runs ce.conflicts) ≡ []
      → drop_identical equal c ce ≡ none
  unfolding drop_identical
  hard-drop_identical ce h = rw h refl

  -- Collisions are let through exactly when in every run of conflicts with one result name each item is
  -- known and equals the first. The runs together are all the conflicts in their order, none is empty,
  -- each has one name, and two runs that follow each other have different names.
  pub drop_identical-none_iff :
      (ce : CollisionsError)
      → ((drop_identical equal c ce ≡ none) ↔ All Alike (runs ce.conflicts))
        × (flat (runs ce.conflicts) ≡ ce.conflicts)
        × All OneName (runs ce.conflicts)
        × All NotEmpty (runs ce.conflicts)
        × IsApart (runs ce.conflicts)
  drop_identical-none_iff ce = (
    (
      λ h.
          hard_conflicts-none (runs ce.conflicts) (runs-NotEmpty ce.conflicts)
            (drop_identical-hard ce h),
      λ h. hard-drop_identical ce (Alike-hard_conflicts (runs ce.conflicts) h),
    ),
    flat-runs ce.conflicts,
    runs-OneName ce.conflicts,
    runs-NotEmpty ce.conflicts,
    runs-IsApart ce.conflicts,
  )
