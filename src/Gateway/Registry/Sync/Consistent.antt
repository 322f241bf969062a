-- ===== src/Gateway/Registry/Sync/Consistent.antt =====
-- registerUpstreamPrompts of internal/gateway/gateway.go: the registry and the server as a whole.
use gooners.Gateway.Registry.Laws.{names-ensure_upstream}
use gooners.Gateway.Registry.Whole.{registry-diff, names-apply, has-apply}
use gooners.Gateway.Registry.Sync.Pointwise.{
  served-sync, registered-sync, final-sync, next_owner, next_payload, IsConsistent,
}
use gooners.Base.{
  ◌≡◌, refl, ◌∙◌, inl, inr, Bool, true, false, ◌&&◌, ◌||◌, Option, none, some, List, [], ◌∷◌, arith,
  ◌==◌, nat_eq, ==-self, list_beq_iff, list_eq, Bool-cases, is_some, contains, Text,
}
use gooners.Base.Map
use gooners.Base.Map.{Map}
use gooners.Gateway.Registry.{diff, ensure_upstream, Set, names_of, owns, is_owner}
use gooners.Gateway.Registry.Sync.{
  new_set, raw_by_final, register, payloads_by_final, put_selected, Served, sync,
}

-- The owner of a name, for the upstream that registers and for another one.
own_step :
    (owner : Option Text) (up : Text) (new : Bool)
    → (new && owns (next_owner owner up new) up) ≡ owns (next_owner owner up new) up
own_step none up new = ground (arith, ==-self up)
own_step (some o) up new = ground (arith, ==-self up)

other_step :
    (owner : Option Text) (up other : Text) (new : Bool)
    → (up == other) ≡ false
    → owns owner other ≡ owns (next_owner owner up new) other
other_step none up other new h = ground arith
other_step (some o) up other new h =
    ground (arith, list_beq_iff o up, list_beq_iff o other, list_beq_iff up other)

or_false : (b : Bool) → (b || false) ≡ b
or_false true = refl
or_false false = refl

module _ {ℓ} {T : Type ℓ} where
  backed_step :
      (equal : Option T → T → Bool) (owner : Option Text) (up : Text) (old new : Option T)
      → is_some old ≡ is_some owner
      → is_some (next_payload equal owner up old new) ≡ is_some (next_owner owner up (is_some new))
  backed_step equal none up old none h = refl
  backed_step equal none up old (some p) h = refl
  backed_step equal (some o) up old none h = ground arith
  backed_step equal (some o) up old (some p) h = ground arith

module _ {ℓ} {T : Type ℓ} (equal : Option T → T → Bool) (up : Text) (payloads : Map Text T)
    (raw : Map Text Text) (names : Set) (distinct : Map.IsMap payloads)
    (same_names : (n : Text) → Map.has n names ≡ Map.has n payloads) where
  names-sync_self :
      (s : Served T) (n : Text)
      → let q = (sync equal s up payloads raw names).0.registry in
        Map.has n (names_of q up) ≡ (Map.has n names && is_owner q up n)
  unfolding sync
  names-sync_self s n =
      let d = diff equal (ensure_upstream s.registry up) up payloads raw in
      has-apply d.0 up d.1.to_remove (put_selected payloads d.1.to_add_or_change []) names n

  names-sync_other :
      (s : Served T) (who : Text)
      → (up == who) ≡ false
      → names_of (sync equal s up payloads raw names).0.registry who ≡ names_of s.registry who
  unfolding sync
  names-sync_other s who h =
      let r = ensure_upstream s.registry up in
      let d = diff equal r up payloads raw in
      names-apply d.0 up d.1.to_remove (put_selected payloads d.1.to_add_or_change []) names who h
      ∙ rw (registry-diff equal r up payloads raw)
          (names-ensure_upstream r up who ∙ names-ensure_upstream s.registry up who)

  owned-sync :
      (s : Served T) (who n : Text)
      → IsConsistent s
      → let q = (sync equal s up payloads raw names).0.registry in
        Map.has n (names_of q who) ≡ is_owner q who n
  owned-sync s who n c = elim (Bool-cases (up == who)) [
    | inl e ↦ rw (← (list_beq_iff up who).0 e) (
        names-sync_self s n
        ∙ rw (same_names n, final-sync equal up payloads raw names distinct s n c)
            (own_step (Map.get n s.registry.final_to_upstream) up (Map.has n payloads)))
    | inr e ↦
        rw (names-sync_other s who e, final-sync equal up payloads raw names distinct s n c)
          (c.owned who n
            ∙ other_step (Map.get n s.registry.final_to_upstream) up who (Map.has n payloads) e)
  ]

  -- Whatever the features and whatever `equal` does, registering them keeps every set equal to what
  -- its upstream owns, every owned name with a payload, and the server equal to the registry.
  pub sync-IsConsistent :
      (s : Served T) → IsConsistent s → IsConsistent (sync equal s up payloads raw names).0
  sync-IsConsistent s c = record {
    owned = λ who n. owned-sync s who n c;
    backed = λ n.
        rw
          (
            final-sync equal up payloads raw names distinct s n c,
            registered-sync equal up payloads raw names distinct s n c,
          )
          (backed_step equal (Map.get n s.registry.final_to_upstream) up
            (Map.get n s.registry.registered) (Map.get n payloads) (c.backed n));
    served = λ n. served-sync equal up payloads raw names distinct s n c;
  }

module _ {ℓ κ} {P : Type κ} {T : Type ℓ} (raw_name : P → Text) (render : Text → P → T)
    (final : Text → Text) where
  pub payloads_by_final-IsMap :
      (items : List P) (m : Map Text T)
      → Map.IsMap m
      → Map.IsMap (payloads_by_final raw_name render final items m)
  unfolding payloads_by_final
  payloads_by_final-IsMap [] m h = h
  payloads_by_final-IsMap (x ∷ items) m h =
      let name = final (raw_name x) in
      payloads_by_final-IsMap items (Map.put name (render name x) m)
        (Map.put-IsMap name (render name x) m h)

  pub new_set-payloads :
      (items : List P) (names : Set) (m : Map Text T) (n : Text)
      → Map.has n names ≡ Map.has n m
      → Map.has n (new_set raw_name render final items names)
        ≡ Map.has n (payloads_by_final raw_name render final items m)
  unfolding payloads_by_final new_set
  new_set-payloads [] names m n h = h
  new_set-payloads (x ∷ items) names m n h =
      let name = final (raw_name x) in
      new_set-payloads items (Map.put name tt names) (Map.put name (render name x) m) n
        (ground (arith, Map.get-put name n tt names, Map.get-put name n (render name x) m, h))

  -- The names of the features.
  abbrev final_names : List P → List Text
  final_names [] = []
  final_names (x ∷ items) = final (raw_name x) ∷ final_names items

  has-payloads_by_final :
      (items : List P) (m : Map Text T) (n : Text)
      → Map.has n (payloads_by_final raw_name render final items m)
        ≡ (contains (final_names items) n || Map.has n m)
  unfolding payloads_by_final
  has-payloads_by_final [] m n = refl
  has-payloads_by_final (x ∷ items) m n =
      let name = final (raw_name x) in
      has-payloads_by_final items (Map.put name (render name x) m) n
      ∙ ground (arith, Map.get-put name n (render name x) m)

  has-payloads_by_final_nil :
      (items : List P) (n : Text)
      → Map.has n (payloads_by_final raw_name render final items [])
        ≡ contains (final_names items) n
  unfolding Map.get
  has-payloads_by_final_nil items n =
      has-payloads_by_final items [] n ∙ or_false (contains (final_names items) n)

  module _ (equal : Option T → T → Bool) (s : Served T) (up : Text) (items : List P)
      (c : IsConsistent s) where
    -- Registering any list of features keeps a consistent registry consistent: the sets, the owners,
    -- the payloads and what the server serves agree.
    pub register-IsConsistent : IsConsistent (register raw_name render equal final s up items).0
    unfolding register Map.get
    register-IsConsistent =
        sync-IsConsistent equal up (payloads_by_final raw_name render final items [])
          (raw_by_final raw_name render final items []) (new_set raw_name render final items [])
          (payloads_by_final-IsMap items [] tt) (λ n. new_set-payloads items [] [] n refl) s c

    -- Registering a list of features for an upstream in a consistent registry settles the owner of every
    -- name: a listed name becomes the upstream's unless another upstream owns it, a name of the upstream
    -- that is not listed loses its owner, and every other name keeps the owner that it had.
    pub final-register :
        (n : Text)
        → Map.get n (register raw_name render equal final s up items).0.registry.final_to_upstream
          ≡ next_owner (Map.get n s.registry.final_to_upstream) up (contains (final_names items) n)
    unfolding register
    final-register n =
        final-sync equal up (payloads_by_final raw_name render final items [])
          (raw_by_final raw_name render final items []) (new_set raw_name render final items [])
          (payloads_by_final-IsMap items [] tt) s n c
        ∙ rw (has-payloads_by_final_nil items n) refl
