-- ===== src/Gateway/Router/Boundary.antt =====
-- isBoundary of internal/gateway/router/router.go, without indices.
use gooners.Base.{
  ℕ, suc, ◌-◌, ◌≡◌, refl, Bool, false, ◌||◌, [], ◌∷◌, ◌++◌, arith, ◌==◌, nat_eq, list_eq, length,
  get_elem?, is_empty, length-append, Text, has_prefix,
}
use gooners.Gateway.Router.{is_boundary, byte_is_slash}

abbrev pub last_is_slash : Text → Bool
last_is_slash [] = false
last_is_slash (c ∷ []) = c == b'/'
last_is_slash (c ∷ d ∷ s) = last_is_slash (d ∷ s)

first_elem :
    (s rest : Text) → byte_is_slash (get_elem? (s ++ rest) (length s)) ≡ has_prefix rest (b'/' ∷ [])
unfolding byte_is_slash
first_elem [] [] = refl
first_elem [] (c ∷ rest) = ground arith
first_elem (c ∷ s) rest = first_elem s rest

last_elem :
    (c : ℕ) (s rest : Text)
    → byte_is_slash (get_elem? (c ∷ (s ++ rest)) (length s)) ≡ last_is_slash (c ∷ s)
unfolding byte_is_slash
last_elem c [] rest = refl
last_elem c (d ∷ s) rest = last_elem d s rest

is_empty-length : (s : Text) → is_empty s ≡ (length s == 0)
is_empty-length [] = refl
is_empty-length (c ∷ s) = ground arith

-- A prefix of a path is a boundary exactly when it is the whole path, or it ends in a slash, or a
-- slash follows it.
pub is_boundary-append :
    (prefix rest : Text)
    → is_boundary (prefix ++ rest) (length prefix)
      ≡ (is_empty rest || last_is_slash prefix || has_prefix rest (b'/' ∷ []))
unfolding is_boundary
is_boundary-append [] [] = refl
is_boundary-append [] (c ∷ rest) = ground arith
is_boundary-append (c ∷ s) rest =
    let before : suc (length s) - 1 ≡ length s = omega arith in
    ground (
      arith,
      before,
      first_elem (c ∷ s) rest,
      last_elem c s rest,
      length-append s rest,
      is_empty-length rest,
    )
