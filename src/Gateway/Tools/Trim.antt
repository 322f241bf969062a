-- ===== src/Gateway/Tools/Trim.antt =====
-- TrimDescription of internal/gateway/upstream.go: where descriptions are cut.
use gooners.Base.{
  ℕ, zero, suc, ◌+◌, ◌-◌, ◌≤◌, ◌<◌, ◌≡◌, refl, sym, ap, ◌∙◌, inl, inr, true, false, ◌&&◌, [], ◌∷◌,
  ◌++◌, arith, ltb, leb, nat_eq, list_eq, Bool-cases, length, take, drop, length-append, Text,
}
use gooners.Gateway.Tools.{rune_size, fitting, trim_description, ellipsis}

-- A text of whole runes, as DecodeRuneInString finds them in the text s.
pub data Runes : Text → Text → Type 0 where
  done : (s : Text) → Runes [] s
  rune :
      {r : Text} (s : Text) → Runes r (drop (rune_size s) s) → Runes (take (rune_size s) s ++ r) s

rune_size-length : (s : Text) → rune_size s ≤ length s
unfolding rune_size
rune_size-length [] = omega arith
rune_size-length (a ∷ []) = omega arith
rune_size-length (a ∷ b ∷ []) = ground arith
rune_size-length (a ∷ b ∷ c ∷ []) = ground arith
rune_size-length (a ∷ b ∷ c ∷ d ∷ s) = ground arith

pub length-take-le : (n : ℕ) (s : Text) → length (take n s) ≤ n
length-take-le zero s = ground arith
length-take-le (suc n) [] = omega arith
length-take-le (suc n) (c ∷ s) = omega (arith, length-take-le n s)

take-drop : (n : ℕ) (s : Text) → take n s ++ drop n s ≡ s
take-drop zero s = refl
take-drop (suc n) [] = refl
take-drop (suc n) (c ∷ s) = ap (λ r. c ∷ r) (take-drop n s)

fitting-length : (fuel max_len : ℕ) (s : Text) → length (fitting fuel max_len s) ≤ max_len
unfolding fitting
fitting-length zero max_len s = omega arith
fitting-length (suc fuel) max_len s = ground (
  arith,
  fitting-length fuel (max_len - rune_size s) (drop (rune_size s) s),
  length-take-le (rune_size s) s,
  length-append (take (rune_size s) s)
      (fitting fuel (max_len - rune_size s) (drop (rune_size s) s)),
)

fitting-takes :
    (fuel max_len : ℕ) (s : Text)
    → (ltb 0 max_len && leb (rune_size s) max_len) ≡ true
    → fitting (suc fuel) max_len s
      ≡ take (rune_size s) s ++ fitting fuel (max_len - rune_size s) (drop (rune_size s) s)
unfolding fitting
fitting-takes fuel max_len s h = ground arith

fitting-stops :
    (fuel max_len : ℕ) (s : Text)
    → (ltb 0 max_len && leb (rune_size s) max_len) ≡ false
    → fitting (suc fuel) max_len s ≡ []
unfolding fitting
fitting-stops fuel max_len s h = ground arith

fitting-Runes : (fuel max_len : ℕ) (s : Text) → Runes (fitting fuel max_len s) s
fitting-Runes zero max_len s = unfold fitting in done s
fitting-Runes (suc fuel) max_len s =
    elim (Bool-cases (ltb 0 max_len && leb (rune_size s) max_len)) [
      | inl e ↦
          rw (fitting-takes fuel max_len s e)
            (rune s (fitting-Runes fuel (max_len - rune_size s) (drop (rune_size s) s)))
      | inr e ↦ rw (fitting-stops fuel max_len s e) (done s)
    ]

rune_size-positive : (s : Text) → 0 < length s → 0 < rune_size s
unfolding rune_size
rune_size-positive [] h = omega arith
rune_size-positive (a ∷ []) h = omega arith
rune_size-positive (a ∷ b ∷ []) h = ground arith
rune_size-positive (a ∷ b ∷ c ∷ []) h = ground arith
rune_size-positive (a ∷ b ∷ c ∷ d ∷ s) h = ground arith

length-take : (n : ℕ) (s : Text) → n ≤ length s → length (take n s) ≡ n
length-take zero s h = refl
length-take (suc n) [] h = omega arith
length-take (suc n) (c ∷ s) h = omega (arith, length-take n s)

length-drop : (n : ℕ) (s : Text) → length (drop n s) ≡ length s - n
length-drop zero s = omega arith
length-drop (suc n) [] = omega arith
length-drop (suc n) (c ∷ s) = omega (arith, length-drop n s)

drop-nil : (n : ℕ) → drop {A = ℕ} n [] ≡ []
drop-nil zero = refl
drop-nil (suc n) = refl

drop-drop : (n m : ℕ) (s : Text) → drop (n + m) s ≡ drop m (drop n s)
drop-drop zero m s = let e : 0 + m ≡ m = omega arith in ap (λ k. drop k s) e
drop-drop (suc n) m [] = drop-nil (suc n + m) ∙ sym (drop-nil m)
drop-drop (suc n) m (c ∷ s) =
    let e : suc n + m ≡ suc (n + m) = omega arith in ap (λ k. drop k (c ∷ s)) e ∙ drop-drop n m s

-- The next rune of a text that is cut does not fit.
fitting-longest :
    (fuel max_len : ℕ) (s : Text)
    → max_len ≤ fuel
    → max_len < length s
    → max_len
      < length (fitting fuel max_len s) + rune_size (drop (length (fitting fuel max_len s)) s)
fitting-longest zero max_len s f h = unfold fitting in omega (arith, rune_size-positive s)
fitting-longest (suc fuel) max_len s f h =
    let n = rune_size s in
    let rest = fitting fuel (max_len - n) (drop n s) in
    elim (Bool-cases (ltb 0 max_len && leb (rune_size s) max_len)) [
      | inl e ↦
          let size : length (take n s ++ rest) ≡ n + length rest =
            length-append (take n s) rest
            ∙ ap (λ k. k + length rest) (length-take n s (rune_size-length s)) in
          rw (fitting-takes fuel max_len s e, size, drop-drop n (length rest) s)
            (ground (
              arith,
              fitting-longest fuel (max_len - n) (drop n s)
                  (ground (arith, rune_size-positive s, e)) (ground (arith, e, length-drop n s)),
            ))
      | inr e ↦ rw (fitting-stops fuel max_len s e) (ground (arith, rune_size-positive s))
    ]

-- A description that is cut consists of whole runes of the description, at most max_len bytes of
-- them, and the mark of the cut; and the next rune would not have fitted.
pub trim_description-longest :
    (s : Text) (max_len : ℕ)
    → 0 < max_len
    → max_len < length s
    → (kept : Text) × (trim_description s max_len ≡ kept ++ ellipsis)
      × Runes kept s
      × (length kept ≤ max_len)
      × (max_len < length kept + rune_size (drop (length kept) s))
unfolding trim_description
trim_description-longest s max_len p h = (
  fitting max_len max_len s,
  ground arith,
  fitting-Runes max_len max_len s,
  fitting-length max_len max_len s,
  fitting-longest max_len max_len s (omega arith) h,
)
