-- ===== src/Gateway/Config.antt =====
-- internal/gateway/config.go: the configuration of a gateway, and the checks of Validate that take
-- nothing from elsewhere. What no check reads is left out. Durations are nanoseconds, and a path is absolute when it starts with a slash.
pub mod Checks
pub mod Distinct
pub mod Accepted
mod Samples
use gooners.Base.{
  negsuc, pos, ℤ, ℕ, zero, suc, ◌+◌, ◌-◌, ◌*◌, ◌≤◌, ◌<◌, ◌≡◌, refl, sym, ap, ◌∙◌, ◌≢◌, ◌↔◌, ◌⊎◌,
  inl, inr, Bool, true, false, not, ◌&&◌, ◌||◌, Option, none, some, List, [], ◌∷◌, ◌++◌, map, arith,
  ltb, leb, nat_beq, if◌then◌else◌, Eq, ◌==◌, nat_eq, ==-self, list_beq, list_beq_iff, list_eq,
  Bool-cases, Sum-cases, Option-cases, length, get_elem?, take, drop, keep, is_empty, get_or,
  is_some, or_else, length-append, length-keep-le, keep-append, All, All-append, contains, count,
  contains-append, contains-keep, Text, text, to_lower, has_prefix, has_infix, has_suffix,
  trim_prefix, trim_prefix-append, is_space, fields, trim_left, trim_space, cut_at, join,
}
use gooners.Base.Map
use gooners.Base.Map.{Map}
use gooners.Auth.{Config, Platform, Problem, validate}
use gooners.Gateway.Tools.{ScopeConfig}
use gooners.Gateway.Secrets.{SecretConfig}
use gooners.Gateway.Secrets.Refs.{extract_secret_refs}

pub record RouteConfig : Type 0 where
  pub host : Text
  pub path : Text

pub record ReconnectConfig : Type 0 where
  pub keep_alive : Text
  pub initial_backoff : Text
  pub max_backoff : Text

pub record RedactConfig : Type 0 where
  pub enabled : Bool
  pub patterns : List Text

-- UpstreamConfig
pub record UpstreamEntry : Type 0 where
  pub name : Text
  pub kind : Text
  pub command : List Text
  pub url : Text
  pub headers : Map Text Text
  pub strip_headers : List Text
  pub env : Map Text Text
  pub scopes : List ScopeConfig
  pub route : RouteConfig
  pub reconnect : Option ReconnectConfig
  pub call_timeout : Text
  pub redact : Option RedactConfig

pub record BlobMountConfig : Type 0 where
  pub name : Text
  pub dir : Text
  pub prefix : Text

-- BlobConfig, with the endpoint and the bucket of its s3 section.
pub record BlobEntry : Type 0 where
  pub addr : Text
  pub base_url : Text
  pub dir : Text
  pub ttl : Text
  pub endpoint : Text
  pub bucket : Text
  pub mounts : List BlobMountConfig

-- Config
pub record GatewayConfig : Type 0 where
  pub drain_timeout : Text
  pub upstreams : List UpstreamEntry
  pub secrets : List SecretConfig
  pub auth : Config
  pub redact : RedactConfig
  pub blob : BlobEntry

-- The errors, each with the name of the upstream, the scope, the mount or the secret that it tells of.
pub data Invalid : Type 0 where
  no_upstreams drain_timeout_invalid name_required mounts_without_store blob_ttl_invalid : Invalid
  two_backends bucket_required mount_name_required secret_name_required : Invalid
  patterns_invalid : Invalid
  name_duplicated kind_invalid command_required url_required call_timeout_invalid : Text → Invalid
  keepalive_invalid initial_backoff_invalid max_backoff_invalid backoff_order : Text → Invalid
  host_is_url host_has_port path_not_rooted scope_name_required : Text → Invalid
  scope_name_colon scope_duplicated scope_match_required scope_pattern_invalid : Text → Invalid
  route_duplicated empty_strip_header redact_invalid : Text → Invalid
  mount_duplicated mount_dir_required mount_dir_relative mount_prefix_relative : Text → Invalid
  secret_duplicated auth_secret_undefined : Text → Invalid
  secret_undefined : Text → Text → Invalid
  auth_invalid : Problem → Invalid

-- The errors of a check, and those of the checks after it where it has none: an early return.
abbrev pub before : List Invalid → List Invalid → List Invalid
before [] next = next
before (e ∷ es) next = e ∷ es

abbrev pub fault : Bool → Invalid → List Invalid
fault found e = if found then e ∷ [] else []

unfoldable pub validate_route_config : Text → RouteConfig → List Invalid
validate_route_config upstream cfg =
    if is_empty cfg.host && is_empty cfg.path
    then []
    else if has_infix cfg.host (text "://") || has_infix cfg.host (text "/")
    then host_is_url upstream ∷ []
    else if has_infix cfg.host (text ":")
    then host_has_port upstream ∷ []
    else fault (not (is_empty cfg.path) && not (has_prefix cfg.path (text "/")))
        (path_not_rooted upstream)

-- The loop of validateRouteCollisions, with the routes that were seen and their upstreams.
abbrev pub same_route : RouteConfig → RouteConfig → Bool
same_route a b = a.host == b.host && a.path == b.path

abbrev pub route_seen : List RouteConfig → RouteConfig → Bool
route_seen [] r = false
route_seen (a ∷ seen) r = same_route a r || route_seen seen r

unfoldable pub validate_route_collisions : List RouteConfig → List UpstreamEntry → List Invalid
validate_route_collisions seen [] = []
validate_route_collisions seen (u ∷ us) =
    let skipped = validate_route_collisions seen us in
    let rest = validate_route_collisions (u.route ∷ seen) us in
    if is_empty u.route.host && is_empty u.route.path
    then skipped
    else if route_seen seen u.route
    then route_duplicated u.name ∷ []
    else rest

-- a > b
abbrev pub exceeds : ℤ → ℤ → Bool
exceeds (pos a) (pos b) = ltb b a
exceeds (pos a) (negsuc b) = true
exceeds (negsuc a) (pos b) = false
exceeds (negsuc a) (negsuc b) = ltb a b

-- Whether both are given, and the first exceeds the second.
abbrev pub out_of_order : Option ℤ → Option ℤ → Bool
out_of_order (some a) (some b) = exceeds a b
out_of_order _ _ = false

-- The validation of the mounts of a blob section.
unfoldable pub validate_mounts : List Text → List BlobMountConfig → List Invalid
validate_mounts seen [] = []
validate_mounts seen (m ∷ ms) =
    let rest = validate_mounts (m.name ∷ seen) ms in
    if is_empty m.name
    then mount_name_required ∷ []
    else if contains seen m.name
    then mount_duplicated m.name ∷ []
    else if is_empty m.dir
    then mount_dir_required m.name ∷ []
    else if not (has_prefix m.dir (text "/"))
    then mount_dir_relative m.name ∷ []
    else if not (is_empty m.prefix) && not (has_prefix m.prefix (text "/"))
    then mount_prefix_relative m.name ∷ []
    else rest

unfoldable pub validate_backend : BlobEntry → List Invalid
validate_backend c =
    if is_empty c.endpoint
    then []
    else if not (is_empty c.addr) || not (is_empty c.base_url) || not (is_empty c.dir)
    then two_backends ∷ []
    else fault (is_empty c.bucket) bucket_required

-- The loop over the secrets, with the names that were seen.
unfoldable pub check_secrets : List Text → List SecretConfig → List Invalid
check_secrets seen [] = []
check_secrets seen (s ∷ ss) =
    let rest = check_secrets (s.name ∷ seen) ss in
    if is_empty s.name
    then secret_name_required ∷ []
    else if contains seen s.name
    then secret_duplicated s.name ∷ []
    else rest

abbrev pub secret_names : List SecretConfig → List Text
secret_names [] = []
secret_names (s ∷ ss) = s.name ∷ secret_names ss

-- The references that no secret has the name of.
abbrev pub undefined_in : (Text → Invalid) → List Text → List Text → List Invalid
undefined_in problem defined [] = []
undefined_in problem defined (n ∷ names) =
    fault (not (contains defined n)) (problem n) ++ undefined_in problem defined names

-- The loop over the values of a map.
unfoldable pub undefined_refs : (Text → Invalid) → List Text → Map Text Text → List Invalid
unfolding extract_secret_refs
undefined_refs problem defined [] = []
undefined_refs problem defined ((k, v) ∷ m) =
    undefined_in problem defined (extract_secret_refs v) ++ undefined_refs problem defined m

abbrev pub empty_headers : Text → List Text → List Invalid
empty_headers upstream [] = []
empty_headers upstream (h ∷ hs) =
    fault (is_empty h) (empty_strip_header upstream) ++ empty_headers upstream hs

abbrev pub all_ok : (Text → Bool) → List Text → Bool
all_ok ok [] = true
all_ok ok (p ∷ ps) = ok p && all_ok ok ps

unfoldable pub check_kind : UpstreamEntry → List Invalid
check_kind u =
    if u.kind == text "stdio"
    then fault (is_empty u.command) (command_required u.name)
    else if u.kind == text "http" || u.kind == text "sse"
    then fault (is_empty u.url) (url_required u.name)
    else kind_invalid u.name ∷ []
