-- ===== src/Gateway/Reload.antt =====
-- internal/gateway/reload.go: what a new configuration changes. A part of the configuration that is
-- only compared is a number, and reflect.DeepEqual on an upstream's section is a parameter.
pub mod Plan
pub mod Live
pub mod Detached
pub mod Routes
mod Samples
use gooners.Base.{
  ℕ, zero, suc, ◌+◌, ◌-◌, ◌*◌, ◌≤◌, ◌<◌, ◌≡◌, refl, sym, ap, ◌∙◌, ◌≢◌, ◌↔◌, ◌⊎◌, inl, inr, Bool,
  true, false, not, ◌&&◌, ◌||◌, Option, none, some, List, [], ◌∷◌, ◌++◌, map, arith, ltb, leb,
  nat_beq, if◌then◌else◌, Eq, ◌==◌, nat_eq, ==-self, list_beq, list_beq_iff, list_eq, Bool-cases,
  Sum-cases, Option-cases, length, get_elem?, take, drop, keep, is_empty, get_or, is_some, or_else,
  length-append, length-keep-le, keep-append, All, All-append, contains, count, contains-append,
  contains-keep, Text, text, to_lower, has_prefix, has_infix, has_suffix, trim_prefix,
  trim_prefix-append, is_space, fields, trim_left, trim_space, cut_at, join,
}
use gooners.Base.Map
use gooners.Base.Map.{Map}
use gooners.Gateway.Tools.{UpstreamConfig}
use gooners.Gateway.Scopes.{is_lazy}
use gooners.Gateway.Secrets.{SecretConfig, SecretSource}
use gooners.Gateway.Secrets.Refs.{extract_secret_refs}

-- An upstream's section: `rest` stands for the fields that are not read here.
pub record Section : Type 0 where
  pub upstream : UpstreamConfig
  pub env : Map Text Text
  pub headers : Map Text Text
  pub redact : Option ℕ
  pub route_host : Text
  pub route_path : Text
  pub rest : ℕ

pub record BlobConfig : Type 0 where
  pub mounts : List Text
  pub store : ℕ

pub record Config : Type 0 where
  pub server : ℕ
  pub auth : ℕ
  pub redact : ℕ
  pub secrets : List SecretConfig
  pub upstreams : List Section
  pub blob : BlobConfig

pub record UpstreamPlan : Type 0 where
  pub add : List Section
  pub restart : List Section
  pub remove : List Section
  pub unchanged : List Text

abbrev pub name_of : Section → Text
name_of uc = uc.upstream.name

-- The map from names to sections that is built from a list; a later one with the same name wins.
unfoldable pub sections_by_name : List Section → Map Text Section → Map Text Section
sections_by_name [] m = m
sections_by_name (uc ∷ ucs) m = sections_by_name ucs (Map.put (name_of uc) uc m)

unfoldable pub secrets_by_name : List SecretConfig → Map Text SecretConfig → Map Text SecretConfig
secrets_by_name [] m = m
secrets_by_name (s ∷ ss) m = secrets_by_name ss (Map.put s.name s m)

-- Go's comparison of two SecretConfig values; a missing one is the zero value.
abbrev pub no_secret : SecretConfig
no_secret = record { name = []; source = record { value = []; env = []; file = []; command = [] } }

abbrev pub secret_same : SecretConfig → SecretConfig → Bool
secret_same a b =
    a.name == b.name
    && (a.source.value == b.source.value
        && (a.source.env == b.source.env
            && (a.source.file == b.source.file && a.source.command == b.source.command)))

abbrev pub secret_kept : Map Text SecretConfig → Map Text SecretConfig → Text → Bool
secret_kept old new name =
    secret_same (get_or (Map.get name old) no_secret) (get_or (Map.get name new) no_secret)

-- The loops of secretRefsChanged, from the innermost.
abbrev pub any_changed : Map Text SecretConfig → Map Text SecretConfig → List Text → Bool
any_changed old new [] = false
any_changed old new (name ∷ names) =
    if not (secret_kept old new name) then true else any_changed old new names

unfoldable pub any_value_changed :
    Map Text SecretConfig → Map Text SecretConfig → Map Text Text → Bool
unfolding extract_secret_refs
any_value_changed old new [] = false
any_value_changed old new ((key, v) ∷ values) =
    if any_changed old new (extract_secret_refs v) then true else any_value_changed old new values

unfoldable pub secret_refs_changed : Section → Map Text SecretConfig → Map Text SecretConfig → Bool
unfolding any_value_changed
secret_refs_changed uc old new =
    any_value_changed old new uc.env || any_value_changed old new uc.headers

-- The first test of a section that both configurations have.
abbrev pub needs_restart : (Section → Section → Bool) → Config → Config → Section → Section → Bool
needs_restart deep_equal old new prev uc =
    not (deep_equal prev uc)
    || (not (is_some uc.redact) && not (old.redact == new.redact)
        || secret_refs_changed uc (secrets_by_name old.secrets []) (secrets_by_name new.secrets []))

-- The loop over the new sections.
unfoldable pub plan_new :
    (Section → Section → Bool) → Config → Config → Map Text Section → List Section → UpstreamPlan
unfolding secret_refs_changed secrets_by_name
plan_new deep_equal old new by_name [] = record {
  add = [];
  restart = [];
  remove = [];
  unchanged = [];
}
plan_new deep_equal old new by_name (uc ∷ ucs) =
    let rest = plan_new deep_equal old new by_name ucs in
    elim (Map.get (name_of uc) by_name) [
      | none ↦ record rest { add = uc ∷ rest.add }
      | some prev ↦
          if needs_restart deep_equal old new prev uc
          then record rest { restart = uc ∷ rest.restart }
          else record rest { unchanged = name_of uc ∷ rest.unchanged }
    ]

-- The loop over the old sections.
abbrev pub removed : Map Text Section → List Section → List Section
removed seen ucs = keep (λ uc. not (Map.has (name_of uc) seen)) ucs

unfoldable pub plan_upstreams : (Section → Section → Bool) → Config → Config → UpstreamPlan
unfolding plan_new sections_by_name
plan_upstreams deep_equal old new =
    let plan = plan_new deep_equal old new (sections_by_name old.upstreams []) new.upstreams in
    record plan { remove = removed (sections_by_name new.upstreams []) old.upstreams }

unfoldable pub blob_store_changed : BlobConfig → BlobConfig → Bool
blob_store_changed old new = not (old.store == new.store)

-- Config.anyLazy
abbrev pub any_lazy : List Section → Bool
any_lazy [] = false
any_lazy (uc ∷ ucs) = if is_lazy uc.upstream.tools then true else any_lazy ucs

abbrev note_if : Bool → Text → List Text
note_if changed section = if changed then section ∷ [] else []

unfoldable pub restart_required : Config → Config → List Text
unfolding blob_store_changed
restart_required old new =
    note_if (not (old.server == new.server)) (text "server")
    ++ (note_if (not (old.auth == new.auth)) (text "auth")
        ++ (note_if
              (if any_lazy old.upstreams
                then not (any_lazy new.upstreams)
                else any_lazy new.upstreams)
              (text "tools.lazy")
            ++ note_if (blob_store_changed old.blob new.blob) (text "blob")))
