-- ===== src/Session/Banner/Line.antt =====
-- truncateBanner of internal/session/pool_handlers.go: the length and the bytes of a banner.
use gooners.Base.{
  trim_space, trim_left, ℕ, zero, suc, ◌-◌, ◌≤◌, ◌≡◌, refl, ◌∙◌, inl, inr, false, [], ◌∷◌, arith,
  leb, nat_eq, list_eq, Bool-cases, length, take, drop, length-append, contains, contains-append,
  Text,
}
use mathlib.Core.List.{reverse, reverse-cons}
use gooners.Gateway.Tools.{rune_size}
use gooners.Gateway.Tools.Trim.{length-take-le}
use gooners.Session.Banner.{first_line, cut, truncate_banner}

cut-length : (fuel room : ℕ) (s : Text) → length (cut fuel room s) ≤ room
unfolding cut
cut-length zero room s = omega arith
cut-length (suc fuel) room s = ground (
  arith,
  cut-length fuel (room - rune_size s) (drop (rune_size s) s),
  length-take-le (rune_size s) s,
  length-append (take (rune_size s) s) (cut fuel (room - rune_size s) (drop (rune_size s) s)),
)

module _ (b : ℕ) where
  -- Taking a part of a text adds no byte.
  contains-take : (n : ℕ) (s : Text) → contains s b ≡ false → contains (take n s) b ≡ false
  contains-take zero s h = ground arith
  contains-take (suc n) [] h = refl
  contains-take (suc n) (c ∷ s) h = ground (arith, contains-take n s, h)

  contains-drop : (n : ℕ) (s : Text) → contains s b ≡ false → contains (drop n s) b ≡ false
  contains-drop zero s h = h
  contains-drop (suc n) [] h = refl
  contains-drop (suc n) (c ∷ s) h = contains-drop n s (ground (arith, h))

  contains-cut :
      (fuel room : ℕ) (s : Text) → contains s b ≡ false → contains (cut fuel room s) b ≡ false
  unfolding cut
  contains-cut zero room s h = refl
  contains-cut (suc fuel) room s h = ground (
    arith,
    contains-take (rune_size s) s h,
    contains-cut fuel (room - rune_size s) (drop (rune_size s) s) (contains-drop (rune_size s) s h),
    contains-append (take (rune_size s) s) (cut fuel (room - rune_size s) (drop (rune_size s) s)) b,
  )

  contains-reverse : (s : Text) → contains (reverse s) b ≡ contains s b
  contains-reverse [] = refl
  contains-reverse (c ∷ s) =
      rw (reverse-cons c s)
        (contains-append (reverse s) (c ∷ []) b ∙ ground (arith, contains-reverse s))

  contains-trim_left : (s : Text) → contains s b ≡ false → contains (trim_left s) b ≡ false
  contains-trim_left [] h = refl
  contains-trim_left (c ∷ s) h = ground (arith, contains-trim_left s, h)

  contains-trim_space : (s : Text) → contains s b ≡ false → contains (trim_space s) b ≡ false
  contains-trim_space s h =
      contains-reverse (trim_left (reverse (trim_left s)))
      ∙ contains-trim_left (reverse (trim_left s))
          (contains-reverse (trim_left s) ∙ contains-trim_left s h)

contains-first_line : (s : Text) → contains (first_line s) 10 ≡ false
contains-first_line [] = refl
contains-first_line (c ∷ s) = ground (arith, contains-first_line s)

-- Whatever a server sends as its banner, what is kept is at most 100 bytes without a newline.
pub truncate_banner-one_line :
    (s : Text) → (length (truncate_banner s) ≤ 100) × (contains (truncate_banner s) 10 ≡ false)
unfolding truncate_banner
truncate_banner-one_line s =
    let line = trim_space (first_line (trim_space s)) in
    let clean : contains line 10 ≡ false =
      contains-trim_space 10 (first_line (trim_space s)) (contains-first_line (trim_space s)) in
    elim (Bool-cases (leb (length line) 100)) [
      | inl e ↦ rw e (ground (arith, e), clean)
      | inr e ↦ rw e (cut-length 100 100 line, contains-cut 10 100 100 line clean)
    ]
