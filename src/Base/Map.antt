-- ===== src/Base/Map.antt =====
-- Go's maps as association lists. Writing an old key keeps its place, so a key stands once; the
-- order of entries stands for the order in which a range statement happens to visit them.
use mathlib.Core.Path.{◌≡◌, refl}
use mathlib.Core.Logic.{◌⊎◌}
use mathlib.Core.Bool.{false, Bool}
use mathlib.Core.Option.{Option, none, some}
use mathlib.Core.List.{List, [], ◌∷◌}
use native.Mathlib.Omega.{arith}
use gooners.Base.Tests.{Eq, ◌==◌, if◌then◌else◌}
use gooners.Base.Lists.{contains, is_some}

abbrev pub Map {ℓ κ} : Type ℓ → Type κ → Type (ℓ ⊔ κ)
Map K V = List (K × V)

module _ {ℓ κ} {K : Type ℓ} {V : Type κ} where
  abbrev pub keys : Map K V → List K
  keys [] = []
  keys ((j, v) ∷ m) = j ∷ keys m

module _ {ℓ κ} {K : Type ℓ} {V : Type κ} ⦃e : Eq K⦄ where
  -- m[k], with `none` where the key is missing
  unfoldable pub get : K → Map K V → Option V
  get k [] = none
  get k ((j, v) ∷ m) = if j == k then some v else get k m

  -- m[k] = v
  unfoldable pub put : K → V → Map K V → Map K V
  put k v [] = (k, v) ∷ []
  put k v ((j, w) ∷ m) = if j == k then (j, v) ∷ m else (j, w) ∷ put k v m

  -- delete(m, k)
  unfoldable pub delete : K → Map K V → Map K V
  delete k [] = []
  delete k ((j, v) ∷ m) = if j == k then delete k m else (j, v) ∷ delete k m

  -- _, ok := m[k]
  abbrev pub has : K → Map K V → Bool
  has k m = is_some (get k m)

  pub get-put :
      (k j : K) (v : V) (m : Map K V) → get j (put k v m) ≡ (if k == j then some v else get j m)
  unfolding get put
  get-put k j v [] = refl
  get-put k j v ((i, w) ∷ m) =
      ground (arith, e.same_iff k j, e.same_iff i k, e.same_iff i j, get-put k j v m)

  pub get-delete : (k j : K) (m : Map K V) → get j (delete k m) ≡ (if k == j then none else get j m)
  unfolding get delete
  get-delete k j [] = ground arith
  get-delete k j ((i, w) ∷ m) =
      ground (arith, e.same_iff k j, e.same_iff i k, e.same_iff i j, get-delete k j m)

  -- What is found after a write is what was there, or what was written.
  pub put-some :
      (k j : K) (v w : V) (m : Map K V)
      → get j (put k v m) ≡ some w
      → (get j m ≡ some w) ⊎ ((k ≡ j) × (v ≡ w))
  put-some k j v w m h = ground (arith, get-put k j v m, e.same_iff k j)

  pub delete-some : (k j : K) (w : V) (m : Map K V) → get j (delete k m) ≡ some w → get j m ≡ some w
  delete-some k j w m h = ground (arith, get-delete k j m)

  -- A key is listed just when it has a value.
  pub contains-keys : (m : Map K V) (k : K) → contains (keys m) k ≡ has k m
  unfolding get
  contains-keys [] k = refl
  contains-keys ((j, v) ∷ m) k = ground (arith, contains-keys m k)

  -- Each key once: what a Go map is, and what writing keeps.
  abbrev pub IsMap : Map K V → Type 0
  IsMap [] = Unit
  IsMap ((j, v) ∷ m) = (has j m ≡ false) × IsMap m

  pub put-IsMap : (k : K) (v : V) (m : Map K V) → IsMap m → IsMap (put k v m)
  unfolding put get
  put-IsMap k v [] h = ground arith
  put-IsMap k v ((j, w) ∷ m) h =
      ground (arith, put-IsMap k v m h.1, get-put k j v m, e.same_iff j k, e.same_iff k j)
