-- ===== src/Gateway/Names/Sort.antt =====
-- slices.Sort on strings, which compares bytes, as an insertion sort: the order of equal strings
-- does not show.
use gooners.Base.{
  ℕ, ◌+◌, ◌≡◌, refl, Bool, true, false, ◌&&◌, ◌||◌, List, [], ◌∷◌, arith, ltb, if◌then◌else◌, ◌==◌,
  nat_eq, list_eq, contains, Text,
}

abbrev pub text_leb : Text → Text → Bool
text_leb [] t = true
text_leb (a ∷ s) [] = false
text_leb (a ∷ s) (b ∷ t) = if ltb a b then true else a == b && text_leb s t

insert : Text → List Text → List Text
insert x [] = x ∷ []
insert x (y ∷ ys) = if text_leb x y then x ∷ y ∷ ys else y ∷ insert x ys

unfoldable pub sort : List Text → List Text
unfolding insert
sort [] = []
sort (x ∷ xs) = insert x (sort xs)

contains-insert :
    (x : Text) (ys : List Text) (a : Text) → contains (insert x ys) a ≡ (x == a || contains ys a)
unfolding insert
contains-insert x [] a = refl
contains-insert x (y ∷ ys) a = ground (arith, contains-insert x ys a)

-- Sorting keeps the members.
pub contains-sort : (xs : List Text) (a : Text) → contains (sort xs) a ≡ contains xs a
unfolding sort
contains-sort [] a = refl
contains-sort (x ∷ xs) a = ground (arith, contains-insert x (sort xs) a, contains-sort xs a)

-- A sum over the members does not change when they are sorted.
module _ (f : Text → ℕ) where
  abbrev pub sum : List Text → ℕ
  sum [] = 0
  sum (x ∷ xs) = f x + sum xs

  sum-insert : (x : Text) (ys : List Text) → sum (insert x ys) ≡ f x + sum ys
  unfolding insert
  sum-insert x [] = refl
  sum-insert x (y ∷ ys) = ground (arith, sum-insert x ys)

  pub sum-sort : (xs : List Text) → sum (sort xs) ≡ sum xs
  unfolding sort
  sum-sort [] = refl
  sum-sort (x ∷ xs) = omega (arith, sum-insert x (sort xs), sum-sort xs)
