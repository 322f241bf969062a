-- ===== src/Session/Spool/Failures.antt =====
-- internal/session/spooling_buffer.go: Write when the file system fails, and String after a spill.
use gooners.Base.{
  ℕ, ◌≡◌, ◌≢◌, inl, inr, true, none, some, List, arith, nat_eq, list_eq, Option-cases,
}
use gooners.Session.Spool.{Error, Disk, Buffer, write, write_spilled, write_first, spill, string}

write_spilled-err :
    (disk : Disk) (p : List ℕ) (b : Buffer) (e : Error)
    → (write_spilled disk p b).1.1 ≡ some e
    → (write_spilled disk p b).0.err ≢ none
unfolding write_spilled
write_spilled-err disk p b e h = ground arith

write_first-err :
    (disk : Disk) (p : List ℕ) (b : Buffer) (e : Error)
    → (write_first disk p b).1.1 ≡ some e
    → (write_first disk p b).0.err ≢ none
unfolding write_first
write_first-err disk p b e h = ground arith

spill-err :
    (disk : Disk) (p : List ℕ) (b : Buffer) (e : Error)
    → (spill disk p b).1.1 ≡ some e
    → (spill disk p b).0.err ≢ none
unfolding spill
spill-err disk p b e h = ground (arith, write_first-err disk p)

write-err :
    (disk : Disk) (p : List ℕ) (b : Buffer) (e : Error)
    → (write disk p b).1.1 ≡ some e
    → (write disk p b).0.err ≢ none
unfolding write
write-err disk p b e h = ground (arith, write_spilled-err disk p, spill-err disk p)

write-stuck :
    (disk : Disk) (p : List ℕ) (b : Buffer) (e : Error)
    → b.err ≡ some e
    → write disk p b ≡ (b, (0, some e))
unfolding write
write-stuck disk p b e h = ground arith

-- However the file system behaves, a Write that returns an error leaves the buffer in a state in which
-- every later Write, whatever the file system does then, changes nothing, writes nothing and returns
-- one and the same error.
pub write-sticky :
    (disk : Disk) (p : List ℕ) (b : Buffer) (e : Error)
    → (write disk p b).1.1 ≡ some e
    → (e' : Error) × ((disk' : Disk) (q : List ℕ)
        → write disk' q (write disk p b).0 ≡ ((write disk p b).0, (0, some e')))
write-sticky disk p b e h = elim (Option-cases (write disk p b).0.err) [
  | inl q ↦ elim (write-err disk p b e h q) [ ]
  | inr (e', q) ↦ (e', λ disk' r. write-stuck disk' r (write disk p b).0 e' q)
]

write_spilled-string :
    (disk : Disk) (p : List ℕ) (b : Buffer) → string (write_spilled disk p b).0 ≡ string b
unfolding write_spilled string
write_spilled-string disk p b = ground arith

write_first-string :
    (disk : Disk) (p : List ℕ) (b : Buffer) → string (write_first disk p b).0 ≡ string b
unfolding write_first string
write_first-string disk p b = ground arith

spill-string : (disk : Disk) (p : List ℕ) (b : Buffer) → string (spill disk p b).0 ≡ string b
unfolding spill string
spill-string disk p b = ground (arith, write_first-string disk p)

-- Once a Write leaves the buffer spilled to disk, String still gives the bytes that it gave before
-- that Write: they stay in memory, and nothing is added to them.
pub string-write :
    (disk : Disk) (p : List ℕ) (b : Buffer)
    → (write disk p b).0.spilled ≡ true
    → string (write disk p b).0 ≡ string b
unfolding write string
string-write disk p b h = ground (arith, write_spilled-string disk p, spill-string disk p)
