-- ===== src/Session/Banner.antt =====
-- internal/session/pool_handlers.go: what is kept of the banner and the version that an SSH server
-- sends. White space is ASCII.
pub mod Line
mod Samples
use gooners.Base.{
  ℕ, zero, suc, ◌+◌, ◌-◌, ◌*◌, ◌≤◌, ◌<◌, ◌≡◌, refl, sym, ap, ◌∙◌, ◌≢◌, ◌↔◌, ◌⊎◌, inl, inr, Bool,
  true, false, not, ◌&&◌, ◌||◌, Option, none, some, List, [], ◌∷◌, ◌++◌, map, arith, ltb, leb,
  nat_beq, if◌then◌else◌, Eq, ◌==◌, nat_eq, ==-self, list_beq, list_beq_iff, list_eq, Bool-cases,
  Option-cases, length, get_elem?, take, drop, keep, is_empty, get_or, is_some, or_else,
  length-append, length-keep-le, keep-append, All, All-append, contains, count, contains-append,
  contains-keep, Text, text, to_lower, has_prefix, has_infix, has_suffix, trim_prefix,
  trim_prefix-append, is_space, fields, fields_from, trim_left, trim_space, cut_at, join,
}
use gooners.Base.Map
use gooners.Base.Map.{Map}
use mathlib.Core.List.{reverse}
use gooners.Gateway.Tools.{rune_size}

-- The part that strings.Cut gives before the first newline.
abbrev pub first_line : Text → Text
first_line [] = []
first_line (c ∷ s) = if c == 10 then [] else c ∷ first_line s

-- The loop of truncateBanner, with the bytes that may still be taken; each rune takes one at least.
unfoldable pub cut : ℕ → ℕ → Text → Text
unfolding rune_size
cut zero room s = []
cut (suc fuel) room s =
    let size = rune_size s in
    let rest = cut fuel (room - size) (drop size s) in
    if ltb 0 (length s) && leb size room then take size s ++ rest else []

unfoldable pub truncate_banner : Text → Text
unfolding cut
truncate_banner s =
    let line = trim_space (first_line (trim_space s)) in
    if leb (length line) 100 then line else cut 100 100 line

unfoldable pub detect_platform : Text → Text
detect_platform server_version =
    if has_infix server_version (text "Cisco")
    then text "cisco"
    else if has_infix server_version (text "ROSSSH")
    then text "mikrotik"
    else if has_infix server_version (text "OpenSSH_for_Windows")
    then text "windows"
    else if has_infix server_version (text "OpenSSH")
    then text "linux"
    else text "unknown"
