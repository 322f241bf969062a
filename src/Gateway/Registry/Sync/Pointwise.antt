-- ===== src/Gateway/Registry/Sync/Pointwise.antt =====
-- Registering an upstream's features, seen at one name.
use gooners.Gateway.Registry.Whole.{
  registered-apply, registry-diff, to_remove-diff, to_add-diff, final-apply,
}
use gooners.Base.{
  or_else, ◌≡◌, refl, sym, ◌∙◌, inl, inr, Bool, false, not, ◌&&◌, Option, none, some, List, [], ◌∷◌,
  arith, if◌then◌else◌, ◌==◌, nat_eq, list_beq_iff, list_eq, Option-cases, is_some, contains, Text,
}
use gooners.Base.Map
use gooners.Base.Map.{Map}
use gooners.Gateway.Registry.{Diff, Set, diff, ensure_upstream, names_of, owns, is_owner}
use gooners.Gateway.Registry.Laws.{
  final-ensure_upstream, registered-ensure_upstream, names-ensure_upstream, is_due,
}
use gooners.Gateway.Registry.Sync.{Served, unserve, put_selected, sync}

-- A name that another upstream holds.
abbrev pub held_by_other : Option Text → Text → Bool
held_by_other none up = false
held_by_other (some owner) up = not (owner == up)

-- The owner of a name after the features of `up` are registered: a name that another upstream holds
-- stays with it, a name of the new features goes to `up`, and any other name has no owner.
abbrev pub next_owner : Option Text → Text → Bool → Option Text
next_owner owner up new = if held_by_other owner up then owner else if new then some up else none

-- The payload of a name then: a payload that `equal` does not tell from the new one is kept.
abbrev pub next_payload {ℓ} :
    {T : Type ℓ} → (Option T → T → Bool) → Option Text → Text → Option T → Option T → Option T
next_payload equal owner up old none = if held_by_other owner up then old else none
next_payload equal owner up old (some new) =
    if held_by_other owner up then old else if owns owner up && equal old new then old else some new

module _ {ℓ} {T : Type ℓ} where
  get-unserve :
      (names : List Text) (server : Map Text T) (n : Text)
      → Map.get n (unserve names server) ≡ (if contains names n then none else Map.get n server)
  unfolding unserve
  get-unserve [] server n = refl
  get-unserve (x ∷ names) server n =
      get-unserve names (Map.delete x server) n ∙ ground (arith, Map.get-delete x n server)

  get-put_selected :
      (payloads : Map Text T) (names : List Text) (m : Map Text T) (n : Text)
      → Map.get n (put_selected payloads names m)
        ≡ or_else (if contains names n then Map.get n payloads else none) (Map.get n m)
  unfolding put_selected
  get-put_selected payloads [] m n = refl
  get-put_selected payloads (x ∷ names) m n = elim (Option-cases (Map.get x payloads)) [
    | inl e ↦
        rw (e, put_selected)
          (get-put_selected payloads names m n ∙ ground (arith, e, list_beq_iff x n))
    | inr (p, e) ↦
        rw (e, put_selected)
          (get-put_selected payloads names (Map.put x p m) n
            ∙ ground (arith, e, list_beq_iff x n, Map.get-put x n p m))
  ]

  put_selected-IsMap :
      (payloads : Map Text T) (names : List Text) (m : Map Text T)
      → Map.IsMap m
      → Map.IsMap (put_selected payloads names m)
  unfolding put_selected
  put_selected-IsMap payloads [] m h = h
  put_selected-IsMap payloads (x ∷ names) m h = elim (Option-cases (Map.get x payloads)) [
    | inl e ↦ rw (e, put_selected) (put_selected-IsMap payloads names m h)
    | inr (p, e) ↦
        rw (e, put_selected)
          (put_selected-IsMap payloads names (Map.put x p m) (Map.put-IsMap x p m h))
  ]

-- Every set holds the names that its upstream owns, a name with an owner has a payload and no other
-- name has one, and the server serves the payloads of the registry.
pub record IsConsistent {ℓ} {T : Type ℓ} (s : Served T) : Type ℓ where
  pub owned : (up n : Text) → Map.has n (names_of s.registry up) ≡ is_owner s.registry up n
  pub backed : (n : Text) → Map.has n s.registry.registered ≡ Map.has n s.registry.final_to_upstream
  pub served : (n : Text) → Map.get n s.server ≡ Map.get n s.registry.registered

-- The cases of one name: its owner, its payload and the new one.
module _ {ℓ} {T : Type ℓ} (equal : Option T → T → Bool) (up : Text) where
  -- The payload that is put for a name, if any.
  abbrev chosen : Option Text → Option T → Option T → Option T
  chosen owner old new = if is_due equal owner up old new then new else none

  payload_step :
      (owner : Option Text) (old new : Option T)
      → is_some old ≡ is_some owner
      → or_else
          (or_else (chosen owner old new) none)
          (if owns owner up && not (is_some new) then none else old)
        ≡ next_payload equal owner up old new
  payload_step none none none h = refl
  payload_step none (some q) none h = cc
  payload_step none old (some p) h = refl
  payload_step (some o) old none h = ground arith
  payload_step (some o) old (some p) h = ground arith

  served_step :
      (owner : Option Text) (old new : Option T)
      → is_some old ≡ is_some owner
      → or_else (chosen owner old new) (if owns owner up && not (is_some new) then none else old)
        ≡ next_payload equal owner up old new
  served_step none none none h = refl
  served_step none (some q) none h = cc
  served_step none old (some p) h = refl
  served_step (some o) old none h = ground arith
  served_step (some o) old (some p) h = ground arith

  final_step :
      (owner : Option Text) (old new : Option T)
      → (if is_some (or_else (chosen owner old new) none)
          then some up
          else if owns owner up && not (is_some new)
          then none
          else owner)
        ≡ next_owner owner up (is_some new)
  final_step none old none = refl
  final_step none old (some p) = refl
  final_step (some o) old none = ground arith
  final_step (some o) old (some p) = ground (arith, list_beq_iff o up)

module _ {ℓ} {T : Type ℓ} (equal : Option T → T → Bool) (up : Text) (payloads : Map Text T)
    (raw : Map Text Text) (names : Set) (distinct : Map.IsMap payloads) where
  -- The two lists of diff, and the registry that it leaves, by the registry at the start.
  module _ (s : Served T) (n : Text) (c : IsConsistent s) where
    changes : Diff
    changes = (diff equal (ensure_upstream s.registry up) up payloads raw).1

    to_add-changes :
        contains changes.to_add_or_change n
        ≡ is_due equal
            (Map.get n s.registry.final_to_upstream)
            up
            (Map.get n s.registry.registered)
            (Map.get n payloads)
    unfolding changes
    to_add-changes =
        to_add-diff equal (ensure_upstream s.registry up) up payloads raw n distinct
        ∙ rw (final-ensure_upstream s.registry up, registered-ensure_upstream s.registry up) refl

    to_remove-changes :
        contains changes.to_remove n
        ≡ (owns (Map.get n s.registry.final_to_upstream) up && not (Map.has n payloads))
    unfolding changes
    to_remove-changes =
        to_remove-diff equal (ensure_upstream s.registry up) up payloads raw n
        ∙ rw (names-ensure_upstream s.registry up up, c.owned up n) refl

    final-after :
        (diff equal (ensure_upstream s.registry up) up payloads raw).0.final_to_upstream
        ≡ s.registry.final_to_upstream
    final-after = rw (registry-diff equal (ensure_upstream s.registry up) up payloads raw) (
        final-ensure_upstream (ensure_upstream s.registry up) up
        ∙ final-ensure_upstream s.registry up)

    registered-after :
        (diff equal (ensure_upstream s.registry up) up payloads raw).0.registered
        ≡ s.registry.registered
    registered-after = rw (registry-diff equal (ensure_upstream s.registry up) up payloads raw) (
        registered-ensure_upstream (ensure_upstream s.registry up) up
        ∙ registered-ensure_upstream s.registry up)

    -- After registering, the owner of every name is the one that the specification gives.
    pub final-sync :
        Map.get n (sync equal s up payloads raw names).0.registry.final_to_upstream
        ≡ next_owner (Map.get n s.registry.final_to_upstream) up (Map.has n payloads)
    unfolding sync changes Map.get
    final-sync =
        final-apply (diff equal (ensure_upstream s.registry up) up payloads raw).0 up
          changes.to_remove (put_selected payloads changes.to_add_or_change []) names n
        ∙ rw
            (
              to_remove-changes,
              final-after,
              get-put_selected payloads changes.to_add_or_change [] n,
              to_add-changes,
            )
            (final_step equal up (Map.get n s.registry.final_to_upstream)
              (Map.get n s.registry.registered) (Map.get n payloads))

    pub registered-sync :
        Map.get n (sync equal s up payloads raw names).0.registry.registered
        ≡ next_payload equal
            (Map.get n s.registry.final_to_upstream)
            up
            (Map.get n s.registry.registered)
            (Map.get n payloads)
    unfolding sync changes Map.get
    registered-sync =
        registered-apply (diff equal (ensure_upstream s.registry up) up payloads raw).0 up
          changes.to_remove (put_selected payloads changes.to_add_or_change []) names n
          (put_selected-IsMap payloads changes.to_add_or_change [] tt)
        ∙ rw
            (
              to_remove-changes,
              registered-after,
              get-put_selected payloads changes.to_add_or_change [] n,
              to_add-changes,
            )
            (payload_step equal up (Map.get n s.registry.final_to_upstream)
              (Map.get n s.registry.registered) (Map.get n payloads) (c.backed n))

    -- The server serves the payload of the registry.
    pub served-sync :
        Map.get n (sync equal s up payloads raw names).0.server
        ≡ Map.get n (sync equal s up payloads raw names).0.registry.registered
    served-sync = server_part ∙ sym registered-sync
      where
        server_part :
            Map.get n (sync equal s up payloads raw names).0.server
            ≡ next_payload equal
                (Map.get n s.registry.final_to_upstream)
                up
                (Map.get n s.registry.registered)
                (Map.get n payloads)
        server_part =
            unfold sync changes in
            get-put_selected payloads changes.to_add_or_change (unserve changes.to_remove s.server)
              n
            ∙ rw
                (
                  get-unserve changes.to_remove s.server n,
                  to_remove-changes,
                  to_add-changes,
                  c.served n,
                )
                (served_step equal up (Map.get n s.registry.final_to_upstream)
                  (Map.get n s.registry.registered) (Map.get n payloads) (c.backed n))
