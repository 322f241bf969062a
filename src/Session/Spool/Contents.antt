-- ===== src/Session/Spool/Contents.antt =====
-- internal/session/spooling_buffer.go: what a buffer holds after writes that succeed.
use gooners.Base.{
  ℕ, ◌+◌, ◌≤◌, ◌<◌, ◌≡◌, refl, sym, ap, ◌∙◌, inl, inr, true, false, none, some, List, [], ◌∷◌, ◌++◌,
  arith, ltb, nat_eq, list_eq, Bool-cases, length, length-append, Text,
}
use mathlib.Core.List.{append-nil, append_assoc}
use gooners.Session.Spool.{spool_path, Disk, Buffer, Written, new_spooling_buffer, write, spill}

-- A disk on which every call succeeds.
abbrev pub works : Disk
works = record { mkdir = none; create = none; spill = none; write = none }

abbrev pub write_all : List (List ℕ) → Buffer → Buffer
write_all [] b = b
write_all (p ∷ ps) b = write_all ps (write works p b).0

abbrev pub joined : List (List ℕ) → List ℕ
joined [] = []
joined (p ∷ ps) = p ++ joined ps

-- A buffer that has taken exactly the bytes `all`, with no failure.
pub record Holds (b : Buffer) (all : List ℕ) : Type 0 where
  pub sized : b.size ≡ length all
  pub no_error : b.err ≡ none
  pub in_memory : b.spilled ≡ false → (b.buf ≡ all) × (b.file ≡ none) × (length all ≤ b.threshold)
  pub on_disk : b.spilled ≡ true → (b.file ≡ some all) × (b.threshold < length all)

new_spooling_buffer-Holds : (s i : Text) (t : ℕ) → Holds (new_spooling_buffer s i t) []
unfolding new_spooling_buffer
new_spooling_buffer-Holds s i t = record {
  sized = refl;
  no_error = refl;
  in_memory = λ e. (refl, refl, omega arith);
  on_disk = λ e. cc;
}

-- The three branches of Write that succeed.
write_on_disk :
    (p content : List ℕ) (b : Buffer)
    → b.err ≡ none
    → b.spilled ≡ true
    → b.file ≡ some content
    → write works p b
      ≡ (record b { size = b.size + length p; file = some (content ++ p) }, (length p, none))
unfolding write
write_on_disk p content b e s f = ground arith

write_in_memory :
    (p : List ℕ) (b : Buffer)
    → b.err ≡ none
    → b.spilled ≡ false
    → b.size + length p ≤ b.threshold
    → write works p b ≡ (record b { size = b.size + length p; buf = b.buf ++ p }, (length p, none))
unfolding write
write_in_memory p b e s t = ground arith

write_moves :
    (p : List ℕ) (b : Buffer)
    → b.err ≡ none
    → b.spilled ≡ false
    → b.threshold < b.size + length p
    → write works p b ≡ (
      record b {
        size = b.size + length p;
        file = some (b.buf ++ p);
        file_path = spool_path b;
        spilled = true;
      },
      (length p, none),
    )
unfolding write spill
write_moves p b e s t = elim (Bool-cases (ltb 0 (length b.buf))) [
  | inl q ↦ ground (arith, q)
  | inr q ↦ ground (arith, q)
]

-- What a write does to a buffer that holds the bytes `all`, given one of the three equations above.
abbrev pub Took : ℕ → List ℕ → List ℕ → Buffer × Written → Type 0
Took t all p (b, (n, e)) = Holds b (all ++ p) × (n ≡ length p) × (e ≡ none) × (b.threshold ≡ t)

write-Holds :
    (p : List ℕ) (b : Buffer) (all : List ℕ)
    → Holds b all
    → Took b.threshold all p (write works p b)
write-Holds p b all h = elim (Bool-cases b.spilled) [
  | inl e ↦ rw (write_on_disk p all b h.no_error e (h.on_disk e).0) (
    (record {
      sized = omega (arith, h.sized, length-append all p);
      no_error = h.no_error;
      in_memory = λ q. cc;
      on_disk = λ q. (refl, omega (arith, (h.on_disk e).1, length-append all p));
    }),
    refl,
    refl,
    refl,
  )
  | inr e ↦ elim (Bool-cases (ltb b.threshold (b.size + length p))) [
    | inl q ↦ rw (write_moves p b h.no_error e (ground (arith, q))) (
      (record {
        sized = omega (arith, h.sized, length-append all p);
        no_error = h.no_error;
        in_memory = λ q. cc;
        on_disk = λ q'. (
          ap (λ l. some (l ++ p)) (h.in_memory e).0,
          ground (arith, q, h.sized, length-append all p),
        );
      }),
      refl,
      refl,
      refl,
    )
    | inr q ↦ rw (write_in_memory p b h.no_error e (ground (arith, q))) (
      (record {
        sized = omega (arith, h.sized, length-append all p);
        no_error = h.no_error;
        in_memory = λ q'. (
          ap (λ l. l ++ p) (h.in_memory e).0,
          (h.in_memory e).1,
          ground (arith, q, h.sized, length-append all p),
        );
        on_disk = λ q. cc;
      }),
      refl,
      refl,
      refl,
    )
  ]
]

write_all-threshold :
    (ps : List (List ℕ)) (b : Buffer) (all : List ℕ)
    → Holds b all
    → (Holds (write_all ps b) (all ++ joined ps)) × ((write_all ps b).threshold ≡ b.threshold)
write_all-threshold [] b all h = rw (append-nil all) (h, refl)
write_all-threshold (p ∷ ps) b all h =
    let w = write-Holds p b all h in
    let r = write_all-threshold ps (write works p b).0 (all ++ p) w.0 in
    (rw (sym (append_assoc all p (joined ps))) r.0, r.1 ∙ w.3)

-- Whatever chunks are written to a new buffer on a disk on which every call succeeds, the buffer
-- holds their concatenation: its size is the number of bytes, it has no error, it is spilled exactly
-- when there are more bytes than the threshold, and then its file has all the bytes, else the memory.
pub write_all-Holds :
    (s i : Text) (t : ℕ) (ps : List (List ℕ))
    → Holds (write_all ps (new_spooling_buffer s i t)) (joined ps)
      × ((write_all ps (new_spooling_buffer s i t)).spilled ≡ ltb t (length (joined ps)))
unfolding new_spooling_buffer
write_all-Holds s i t ps =
    let b = write_all ps (new_spooling_buffer s i t) in
    let r =
      write_all-threshold ps (new_spooling_buffer s i t) [] (new_spooling_buffer-Holds s i t) in
    let h : Holds b (joined ps) = r.0 in
    let e : b.threshold ≡ t = r.1 in
    (
      h,
      elim (Bool-cases b.spilled) [
        | inl q ↦ ground (arith, q, h.on_disk q, e)
        | inr q ↦ ground (arith, q, h.in_memory q, e)
      ],
    )
