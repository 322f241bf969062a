-- ===== src/Gateway/Secrets.antt =====
-- internal/gateway/secret.go: the sources of secrets, and the resolver that keeps what it last read.
pub mod Refs
pub mod Kept
mod Samples
use gooners.Base.{
  ℕ, zero, suc, ◌+◌, ◌-◌, ◌*◌, ◌≤◌, ◌<◌, ◌≡◌, refl, sym, ap, ◌∙◌, ◌≢◌, ◌↔◌, ◌⊎◌, inl, inr, Bool,
  true, false, not, ◌&&◌, ◌||◌, Option, none, some, List, [], ◌∷◌, ◌++◌, map, arith, ltb, leb,
  nat_beq, if◌then◌else◌, Eq, ◌==◌, nat_eq, ==-self, list_beq, list_beq_iff, list_eq, Bool-cases,
  Sum-cases, Option-cases, length, get_elem?, take, drop, keep, is_empty, get_or, is_some, or_else,
  length-append, length-keep-le, keep-append, All, All-append, contains, count, contains-append,
  contains-keep, Text, text, to_lower, has_prefix, has_infix, has_suffix, trim_prefix,
  trim_prefix-append, is_space, fields, trim_left, trim_space, cut_at, join,
}
use gooners.Base.Map
use gooners.Base.Map.{Map}
use mathlib.Core.List.{reverse}

pub record SecretSource : Type 0 where
  pub value : Text
  pub env : Text
  pub file : Text
  pub command : Text

pub record SecretConfig : Type 0 where
  pub name : Text
  pub source : SecretSource

pub data Error : Type 0 where
  -- ErrSecretNotFound
  secret_not_found : Text → Error
  duplicate_secret_name empty_command no_resolver context_done : Error
  read_failed parse_failed command_failed : Text → Error

-- What the code takes from the system: os.Getenv, os.ReadFile, shellquote.Split and the output of a
-- command, with none for an error.
pub record System : Type 0 where
  pub getenv : Text → Text
  pub read_file : Text → Option Text
  pub split : Text → Option (List Text)
  pub output : List Text → Option Text

pub record Resolver : Type 0 where
  pub sources : Map Text SecretSource
  pub last_good : Map Text Text

abbrev trim_newlines_left : Text → Text
trim_newlines_left [] = []
trim_newlines_left (c ∷ s) = if c == 10 then trim_newlines_left s else c ∷ s

-- strings.TrimRight with a newline as the set
abbrev pub trim_newlines : Text → Text
trim_newlines s = reverse (trim_newlines_left (reverse s))

-- The branch of resolveSource for a command.
run_command : System → Text → Text → Error ⊎ Text
run_command sys name command = elim (sys.split command) [
  | none ↦ inl (parse_failed name)
  | some [] ↦ inl empty_command
  | some (arg ∷ args) ↦ elim (sys.output ((arg ∷ args) ++ (name ∷ []))) [
    | none ↦ inl (command_failed name)
    | some out ↦ inr (trim_newlines out)
  ]
]

unfoldable pub resolve_source : System → Text → SecretSource → Error ⊎ Text
unfolding run_command
resolve_source sys name src =
    if not (is_empty src.value)
    then inr src.value
    else if not (is_empty src.env)
    then (let v = sys.getenv src.env in if is_empty v then inl (secret_not_found name) else inr v)
    else if not (is_empty src.file)
    then elim (sys.read_file src.file) [
      | none ↦ inl (read_failed name)
      | some b ↦ inr (trim_newlines b)
    ]
    else if not (is_empty src.command)
    then run_command sys name src.command
    else inl (secret_not_found name)

-- The loop of NewSecretResolver.
unfoldable pub add_sources :
    Map Text SecretSource → List SecretConfig → Error ⊎ Map Text SecretSource
add_sources m [] = inr m
add_sources m (c ∷ cs) =
    let rest = add_sources (Map.put c.name c.source m) cs in
    if Map.has c.name m then inl duplicate_secret_name else rest

unfoldable pub new_secret_resolver : List SecretConfig → Error ⊎ Resolver
unfolding add_sources
new_secret_resolver cfgs = elim (add_sources [] cfgs) [
  | inl e ↦ inl e
  | inr m ↦ inr (record { sources = m; last_good = [] })
]

-- What the select of Resolve gives: the reading, or the end of the context where that comes first.
abbrev pub awaited : System → Bool → Text → SecretSource → Error ⊎ Text
awaited sys done name src = if done then inl context_done else resolve_source sys name src

-- The end of Resolve, under the lock.
unfoldable pub settle : Text → Error ⊎ Text → Resolver → Resolver × (Error ⊎ Text)
settle name (inr v) r = (record r { last_good = Map.put name v r.last_good }, inr v)
settle name (inl e) r = elim (Map.get name r.last_good) [ some v ↦ (r, inr v) | none ↦ (r, inl e) ]

-- Resolve, with whether the context ends before the reading does.
unfoldable pub resolve : System → Bool → Text → Resolver → Resolver × (Error ⊎ Text)
unfolding settle resolve_source
resolve sys done name r = elim (Map.get name r.sources) [
  | none ↦ (r, inl (secret_not_found name))
  | some src ↦ settle name (awaited sys done name src) r
]
