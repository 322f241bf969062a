-- ===== src/Grafana/Sessions/Weights.antt =====
-- Sums over lists whose elements are taken out, put in and changed by their index.
use gooners.Base.{
  ℕ, zero, suc, ◌+◌, ◌≡◌, refl, inl, inr, Bool, some, List, [], ◌∷◌, ◌++◌, arith, nat_eq, list_eq,
  Bool-cases, Option-cases, get_elem?,
}
use gooners.Grafana.Sessions.{find_index, remove_at, insert_at, modify_at}

module _ {ℓ} {A : Type ℓ} where
  abbrev pub weight : (A → ℕ) → List A → ℕ
  weight m [] = 0
  weight m (x ∷ xs) = m x + weight m xs

  pub weight-append : (m : A → ℕ) (xs ys : List A) → weight m (xs ++ ys) ≡ weight m xs + weight m ys
  weight-append m [] ys = omega arith
  weight-append m (x ∷ xs) ys = omega (arith, weight-append m xs ys)

  pub weight-remove_at :
      (m : A → ℕ) (i : ℕ) (x : A) (xs : List A)
      → get_elem? xs i ≡ some x
      → weight m (remove_at i xs) + m x ≡ weight m xs
  weight-remove_at m i x [] h = cc
  weight-remove_at m zero x (y ∷ xs) h = ground arith
  weight-remove_at m (suc i) x (y ∷ xs) h = ground (arith, weight-remove_at m i x xs h)

  pub weight-insert_at :
      (m : A → ℕ) (i : ℕ) (x : A) (xs : List A) → weight m (insert_at i x xs) ≡ weight m xs + m x
  weight-insert_at m zero x xs = omega arith
  weight-insert_at m (suc i) x [] = omega arith
  weight-insert_at m (suc i) x (y ∷ xs) = omega (arith, weight-insert_at m i x xs)

  pub weight-modify_at :
      (m : A → ℕ) (i : ℕ) (f : A → A) (x : A) (xs : List A)
      → get_elem? xs i ≡ some x
      → weight m (modify_at i f xs) + m x ≡ weight m xs + m (f x)
  weight-modify_at m i f x [] h = cc
  weight-modify_at m zero f x (y ∷ xs) h = ground arith
  weight-modify_at m (suc i) f x (y ∷ xs) h = ground (arith, weight-modify_at m i f x xs h)

  pub get-modify_at :
      (i j : ℕ) (f : A → A) (x : A) (xs : List A)
      → get_elem? xs j ≡ some x
      → (y : A) × (get_elem? (modify_at i f xs) j ≡ some y)
  get-modify_at i j f x [] h = cc
  get-modify_at zero zero f x (y ∷ xs) h = (f y, refl)
  get-modify_at zero (suc j) f x (y ∷ xs) h = (x, h)
  get-modify_at (suc i) zero f x (y ∷ xs) h = (y, refl)
  get-modify_at (suc i) (suc j) f x (y ∷ xs) h = get-modify_at i j f x xs h

  pub get-find_index :
      (p : A → Bool) (i : ℕ) (x : A) (xs : List A)
      → find_index p xs ≡ some (i, x)
      → get_elem? xs i ≡ some x
  get-find_index p i x [] h = cc
  get-find_index p i x (y ∷ xs) h = elim (Bool-cases (p y)) [
    | inl e ↦ ground (arith, e)
    | inr e ↦ elim (Option-cases (find_index p xs)) [
      | inl f ↦ ground (arith, e, f)
      | inr ((j, z), f) ↦ ground (arith, e, f, get-find_index p j z xs f)
    ]
  ]
