-- ===== src/Gateway/ToolSync/Merge.antt =====
-- Writing the entries of one map into another.
use gooners.Base.{
  ◌≡◌, refl, sym, ap, ◌∙◌, false, ◌||◌, [], ◌∷◌, ◌++◌, arith, Eq, nat_eq, ==-self, list_eq,
}
use gooners.Base.Map
use gooners.Base.Map.{Map}
use gooners.Base.Map.{IsMap}
use mathlib.Core.List.{append-nil, append_assoc}

module _ {ℓ κ} {K : Type ℓ} {V : Type κ} ⦃e : Eq K⦄ where
  abbrev pub put_map : Map K V → Map K V → Map K V
  put_map [] m = m
  put_map ((k, v) ∷ xs) m = put_map xs (Map.put k v m)

  pub put-put : (k : K) (v w : V) (m : Map K V) → Map.put k v (Map.put k w m) ≡ Map.put k v m
  unfolding Map.put
  put-put k v w [] = ground (arith, ==-self k)
  put-put k v w ((j, x) ∷ m) = ground (arith, put-put k v w m)

  put-missing :
      (k : K) (v : V) (m : Map K V) → Map.has k m ≡ false → Map.put k v m ≡ m ++ ((k, v) ∷ [])
  unfolding Map.put Map.get
  put-missing k v [] h = refl
  put-missing k v ((j, w) ∷ m) h = ground (arith, put-missing k v m)

  has-append : (k : K) (m n : Map K V) → Map.has k (m ++ n) ≡ (Map.has k m || Map.has k n)
  unfolding Map.get
  has-append k [] n = refl
  has-append k ((j, w) ∷ m) n = ground (arith, has-append k m n)

  -- None of some entries has a key of the map.
  abbrev pub IsApart : Map K V → Map K V → Type 0
  IsApart [] m = Unit
  IsApart ((k, v) ∷ xs) m = (Map.has k m ≡ false) × IsApart xs m

  IsApart-step :
      (k : K) (v : V) (xs m : Map K V)
      → IsApart xs m
      → Map.has k xs ≡ false
      → IsApart xs (m ++ ((k, v) ∷ []))
  unfolding Map.get
  IsApart-step k v [] m a h = tt
  IsApart-step k v ((j, w) ∷ xs) m a h = (
    ground (arith, has-append j m ((k, v) ∷ []), a.0, e.same_iff j k, e.same_iff k j),
    IsApart-step k v xs m a.1 (ground arith),
  )

  put_map-append : (xs m : Map K V) → IsMap xs → IsApart xs m → put_map xs m ≡ m ++ xs
  put_map-append [] m d a = sym (append-nil m)
  put_map-append ((k, v) ∷ xs) m d a =
      let m' = m ++ ((k, v) ∷ []) in
      ap (put_map xs) (put-missing k v m a.0)
      ∙ (put_map-append xs m' d.1 (IsApart-step k v xs m a.1 d.0) ∙ append_assoc m ((k, v) ∷ []) xs)

  IsApart-nil : (xs : Map K V) → IsApart xs []
  unfolding Map.get
  IsApart-nil [] = tt
  IsApart-nil ((k, v) ∷ xs) = (refl, IsApart-nil xs)

  pub put_map-nil : (xs : Map K V) → IsMap xs → put_map xs [] ≡ xs
  put_map-nil xs d = put_map-append xs [] d (IsApart-nil xs)
