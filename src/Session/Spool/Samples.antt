-- ===== src/Session/Spool/Samples.antt =====
-- A buffer with a threshold of four bytes.
use gooners.Base.{ℕ, ◌≡◌, refl, none, some, List, [], ◌∷◌, ltb, nat_eq, list_eq, length, text}
use gooners.Session.Spool.{
  Error, io, Disk, Buffer, new_spooling_buffer, write, close, string, map_spool_id,
}
use gooners.Session.Spool.Contents.{works, write_all, joined, Holds, write_all-Holds}
use gooners.Session.Spool.Failures.{write-sticky, string-write}

abbrev small : Buffer
small = new_spooling_buffer (text "s") (text "i") 4

abbrev half : Buffer
half = (write works (text "abc") small).0

abbrev full_disk : Disk
full_disk = record works { write = some (1, io 28) }

write_all-Holds_example :
    Holds
      (write_all (text "abc" ∷ text "defg" ∷ []) (new_spooling_buffer (text "s") (text "i") 4))
      (joined (text "abc" ∷ text "defg" ∷ []))
    × ((write_all
          (text "abc" ∷ text "defg" ∷ [])
          (new_spooling_buffer (text "s") (text "i") 4)).spilled
        ≡ ltb 4 (length (joined (text "abc" ∷ text "defg" ∷ []))))
write_all-Holds_example = write_all-Holds (text "s") (text "i") 4 (text "abc" ∷ text "defg" ∷ [])

write-sticky_example :
    (e : Error) × ((disk : Disk) (q : List ℕ)
      → write disk q (write full_disk (text "de") half).0
        ≡ ((write full_disk (text "de") half).0, (0, some e)))
unfolding write new_spooling_buffer
write-sticky_example = write-sticky full_disk (text "de") half (io 28) refl

string-write_example : string (write works (text "de") half).0 ≡ string half
unfolding write new_spooling_buffer
string-write_example = string-write works (text "de") half refl

string_after_spill : string (write works (text "de") half).0 ≡ text "abc"
unfolding write string new_spooling_buffer
string_after_spill = refl

file_after_spill : (write works (text "de") half).0.file ≡ some (text "abcde")
unfolding write new_spooling_buffer
file_after_spill = refl

-- After Close, a write to a spilled buffer fails.
close_then_write : (write works (text "f") (close none (write works (text "de") half).0).0).1.0 ≡ 0
unfolding write close new_spooling_buffer
close_then_write = refl

spool_id_in_the_result : map_spool_id (write works (text "de") half).0 ≡ text "i"
unfolding write map_spool_id new_spooling_buffer
spool_id_in_the_result = refl
