-- ===== src/Gateway/Registry/Whole.antt =====
-- What apply and diff of feature_registry.go do to one name, as a whole.
use gooners.Gateway.Registry.Laws.{
  names-remove_all, has-own_set, registered-ensure_upstream, names-put_all, registered-remove_all,
  final-ensure_upstream, contains-gone, final-remove_all, names-ensure_upstream, contains-to_add,
  registered-put_all, final-put_all, is_due,
}
use gooners.Base.{
  or_else, ◌≡◌, refl, ◌∙◌, Bool, false, not, ◌&&◌, Option, none, some, List, arith, if◌then◌else◌,
  ◌==◌, nat_eq, ==-self, list_eq, contains, Text,
}
use gooners.Base.Map
use gooners.Base.Map.{Map}
use gooners.Gateway.Registry.{
  own_set, is_owner, remove_all, put_all, names_of, ensure_upstream, apply, diff, Registry, Set,
}

module _ {ℓ} {T : Type ℓ} where
  pub final-apply :
      (r : Registry T) (up : Text) (gone_names : List Text) (payloads : Map Text T)
      (new_names : Set) (n : Text)
      → Map.get n (apply r up gone_names payloads new_names).final_to_upstream ≡ (
          if Map.has n payloads
          then some up
          else if contains gone_names n
          then none
          else Map.get n r.final_to_upstream)
  unfolding apply
  final-apply r up gone_names payloads new_names n = ground (
    arith,
    final-put_all (remove_all (ensure_upstream r up) up gone_names) up payloads n,
    final-remove_all (ensure_upstream r up) up gone_names n,
    final-ensure_upstream r up,
  )

  pub registered-apply :
      (r : Registry T) (up : Text) (gone_names : List Text) (payloads : Map Text T)
      (new_names : Set) (n : Text)
      → Map.IsMap payloads
      → Map.get n (apply r up gone_names payloads new_names).registered
        ≡ or_else
            (Map.get n payloads)
            (if contains gone_names n then none else Map.get n r.registered)
  unfolding apply
  registered-apply r up gone_names payloads new_names n h = ground (
    arith,
    registered-put_all (remove_all (ensure_upstream r up) up gone_names) up payloads n h,
    registered-remove_all (ensure_upstream r up) up gone_names n,
    registered-ensure_upstream r up,
  )

  -- The set of the upstream itself, and the sets of the others.
  pub has-apply :
      (r : Registry T) (up : Text) (gone_names : List Text) (payloads : Map Text T)
      (new_names : Set) (n : Text)
      → let q = apply r up gone_names payloads new_names in
        Map.has n (names_of q up) ≡ (Map.has n new_names && is_owner q up n)
  unfolding apply
  has-apply r up gone_names payloads new_names n =
      let q = put_all (remove_all (ensure_upstream r up) up gone_names) up payloads in
      rw (Map.get-put up up (own_set q up new_names) q.upstream_registered, ==-self up)
        (has-own_set q up new_names n)

  pub names-apply :
      (r : Registry T) (up : Text) (gone_names : List Text) (payloads : Map Text T)
      (new_names : Set) (other : Text)
      → (up == other) ≡ false
      → names_of (apply r up gone_names payloads new_names) other ≡ names_of r other
  unfolding apply
  names-apply r up gone_names payloads new_names other h =
      let q = put_all (remove_all (ensure_upstream r up) up gone_names) up payloads in
      rw (Map.get-put up other (own_set q up new_names) q.upstream_registered, h)
        (names-put_all (remove_all (ensure_upstream r up) up gone_names) up payloads other
          ∙ names-remove_all (ensure_upstream r up) up gone_names other h
          ∙ names-ensure_upstream r up other)

  pub to_remove-diff :
      (equal : Option T → T → Bool) (r : Registry T) (up : Text) (payloads : Map Text T)
      (raw : Map Text Text) (n : Text)
      → contains (diff equal r up payloads raw).1.to_remove n
        ≡ (Map.has n (names_of r up) && not (Map.has n payloads))
  unfolding diff
  to_remove-diff equal r up payloads raw n =
      rw (names-ensure_upstream r up up) (contains-gone (names_of r up) payloads n)

  pub to_add-diff :
      (equal : Option T → T → Bool) (r : Registry T) (up : Text) (payloads : Map Text T)
      (raw : Map Text Text) (n : Text)
      → Map.IsMap payloads
      → contains (diff equal r up payloads raw).1.to_add_or_change n
        ≡ is_due equal
            (Map.get n r.final_to_upstream)
            up
            (Map.get n r.registered)
            (Map.get n payloads)
  unfolding diff
  to_add-diff equal r up payloads raw n h =
      contains-to_add equal (ensure_upstream r up) up raw payloads n h
      ∙ rw (final-ensure_upstream r up, registered-ensure_upstream r up) refl

  pub registry-diff :
      (equal : Option T → T → Bool) (r : Registry T) (up : Text) (payloads : Map Text T)
      (raw : Map Text Text)
      → (diff equal r up payloads raw).0 ≡ ensure_upstream r up
  unfolding diff
  registry-diff equal r up payloads raw = refl
