-- ===== src/Session/Spool.antt =====
-- internal/session/spooling_buffer.go: a buffer that moves to a file when it grows past a threshold.
-- Bytes are numbers, sizes are int64 without wrap-around, and the file system is an environment that
-- says how each call on it ends.
pub mod Contents
pub mod Failures
mod Samples
use gooners.Base.{
  ℕ, zero, suc, ◌+◌, ◌-◌, ◌*◌, ◌≤◌, ◌<◌, ◌≡◌, refl, sym, ap, ◌∙◌, ◌≢◌, ◌↔◌, ◌⊎◌, inl, inr, Bool,
  true, false, not, ◌&&◌, ◌||◌, Option, none, some, List, [], ◌∷◌, ◌++◌, map, arith, ltb, leb,
  nat_beq, if◌then◌else◌, Eq, ◌==◌, nat_eq, ==-self, list_beq, list_beq_iff, list_eq, Bool-cases,
  Option-cases, length, get_elem?, take, drop, keep, is_empty, get_or, is_some, or_else,
  length-append, length-keep-le, keep-append, All, All-append, contains, count, contains-append,
  contains-keep, Text, text, to_lower, has_prefix, has_infix, has_suffix, trim_prefix,
  trim_prefix-append,
}
use gooners.Base.Map
use gooners.Base.Map.{Map}

pub data Error : Type 0 where
  io : ℕ → Error
  closed_buffer : Error
  mkdir_failed create_failed spill_failed write_failed : Error → Error

-- How the calls of one Write on the file system end: MkdirAll, Create, the Write of what is in memory,
-- and the Write of the new bytes, which may also write a part of them.
pub record Disk : Type 0 where
  pub mkdir : Option Error
  pub create : Option Error
  pub spill : Option Error
  pub write : Option (ℕ × Error)

pub record Buffer : Type 0 where
  pub session_id : Text
  pub spool_id : Text
  pub threshold : ℕ
  pub buf : List ℕ
  pub file : Option (List ℕ)
  pub file_path : Text
  pub size : ℕ
  pub spilled : Bool
  pub err : Option Error

-- The count and the error that Write returns.
abbrev pub Written : Type 0
Written = ℕ × Option Error

unfoldable pub new_spooling_buffer : Text → Text → ℕ → Buffer
new_spooling_buffer session_id spool_id threshold = record {
  session_id = session_id;
  spool_id = spool_id;
  threshold = threshold;
  buf = [];
  file = none;
  file_path = [];
  size = 0;
  spilled = false;
  err = none;
}

-- filepath.Join of two clean names
abbrev spool_path : Buffer → Text
spool_path b = b.session_id ++ (b'/' ∷ (b.spool_id ++ text ".out"))

-- The branch of Write for a buffer that has a file already. A failed write leaves the file with the
-- part that was written.
write_spilled : Disk → List ℕ → Buffer → Buffer × Written
write_spilled disk p b = elim b.file [
  | none ↦ (record b { err = some closed_buffer }, (0, some closed_buffer))
  | some content ↦ elim disk.write [
    | none ↦ (record b { file = some (content ++ p) }, (length p, none))
    | some (nw, e) ↦ (record b { file = some (content ++ take nw p); err = some e }, (nw, some e))
  ]
]

-- The last step of moving to a file: the new bytes go to the file that holds the old ones.
write_first : Disk → List ℕ → Buffer → Buffer × Written
write_first disk p b = elim disk.write [
  | none ↦ (record b { file = some (b.buf ++ p) }, (length p, none))
  | some (nw, e) ↦ (record b { file = none; err = some (write_failed e) }, (nw, some e))
]

-- Moving to a file. The bytes in memory stay there.
spill : Disk → List ℕ → Buffer → Buffer × Written
unfolding write_first
spill disk p b = elim disk.mkdir [
  | some e ↦ (record b { err = some (mkdir_failed e) }, (0, some (mkdir_failed e)))
  | none ↦ elim disk.create [
    | some e ↦ (record b { err = some (create_failed e) }, (0, some (create_failed e)))
    | none ↦
        let b' = record b { file = some []; file_path = spool_path b; spilled = true } in
        elim (if ltb 0 (length b.buf) then disk.spill else none) [
          | some e ↦
              (record b' { file = none; err = some (spill_failed e) }, (0, some (spill_failed e)))
          | none ↦ write_first disk p b'
        ]
  ]
]

unfoldable pub write : Disk → List ℕ → Buffer → Buffer × Written
unfolding write_spilled spill
write disk p b = elim b.err [
  | some e ↦ (b, (0, some e))
  | none ↦
      let b' = record b { size = b.size + length p } in
      if b.spilled
      then write_spilled disk p b'
      else if ltb b.threshold b'.size
      then spill disk p b'
      else (record b' { buf = b.buf ++ p }, (length p, none))
]

-- Close, with how closing the file ends.
unfoldable pub close : Option Error → Buffer → Buffer × Option Error
close result b = elim b.file [
  | none ↦ (b, none)
  | some content ↦ (record b { file = none }, result)
]

-- String
unfoldable pub string : Buffer → List ℕ
string b = b.buf

unfoldable pub map_spool_id : Buffer → Text
map_spool_id b = if b.spilled then b.spool_id else []
