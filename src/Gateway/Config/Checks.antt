-- ===== src/Gateway/Config/Checks.antt =====
-- internal/gateway/config.go: Validate, and its checks with time.ParseDuration, path.Match and
-- regexp.Compile as parameters.
use gooners.Gateway.Config.{
  patterns_invalid, drain_timeout_invalid, scope_pattern_invalid, backoff_order, no_upstreams,
  blob_ttl_invalid, out_of_order, scope_match_required, call_timeout_invalid, max_backoff_invalid,
  mounts_without_store, secret_names, scope_duplicated, auth_secret_undefined, scope_name_colon,
  before, BlobEntry, redact_invalid, name_duplicated, empty_headers, initial_backoff_invalid,
  undefined_in, GatewayConfig, keepalive_invalid, check_secrets, name_required, secret_undefined,
  validate_route_config, all_ok, fault, scope_name_required, auth_invalid, validate_mounts,
  validate_route_collisions, Invalid, undefined_refs, ReconnectConfig, RedactConfig, check_kind,
  validate_backend, UpstreamEntry,
}
use gooners.Base.{
  pos, ℤ, Bool, not, ◌&&◌, Option, none, some, List, [], ◌∷◌, ◌++◌, map, if◌then◌else◌, nat_eq,
  list_eq, is_empty, is_some, contains, Text, text, has_infix,
}
use gooners.Auth.{Config, Platform, validate}
use gooners.Gateway.Tools.{ScopeConfig}
use gooners.Gateway.Secrets.Refs.{extract_secret_refs}

-- With time.ParseDuration and what the authentication takes from elsewhere.
module _ (os : Platform) where
  -- parseOptionalDuration
  abbrev pub optional_duration : Text → Option ℤ
  optional_duration s = if is_empty s then some (pos 0) else os.parse_duration s

  abbrev pub is_duration : Text → Bool
  is_duration s = is_some (optional_duration s)

  unfoldable pub validate_reconnect_config : Text → Option ReconnectConfig → List Invalid
  validate_reconnect_config upstream none = []
  validate_reconnect_config upstream (some cfg) =
      if not (is_duration cfg.keep_alive)
      then keepalive_invalid upstream ∷ []
      else if not (is_duration cfg.initial_backoff)
      then initial_backoff_invalid upstream ∷ []
      else if not (is_duration cfg.max_backoff)
      then max_backoff_invalid upstream ∷ []
      else fault
          (not (is_empty cfg.initial_backoff)
            && not (is_empty cfg.max_backoff)
            && out_of_order (optional_duration cfg.initial_backoff)
                (optional_duration cfg.max_backoff))
          (backoff_order upstream)

  unfoldable pub validate_blob : BlobEntry → List Invalid
  unfolding validate_backend validate_mounts
  validate_blob c =
      if is_empty c.addr && is_empty c.endpoint
      then fault (not (is_empty c.mounts)) mounts_without_store
      else if not (is_duration c.ttl)
      then blob_ttl_invalid ∷ []
      else before (validate_backend c) (validate_mounts [] c.mounts)

  unfoldable pub joined_auth : List Text → Config → List Invalid
  unfolding validate extract_secret_refs
  joined_auth defined auth =
      map auth_invalid (validate os auth)
      ++ (if auth.enabled
          then undefined_in auth_secret_undefined defined (extract_secret_refs auth.value)
          else [])

-- With whether path.Match takes a pattern.
module _ (pattern_ok : Text → Bool) where
  unfoldable pub validate_scope_configs : Text → List Text → List ScopeConfig → List Invalid
  validate_scope_configs upstream seen [] = []
  validate_scope_configs upstream seen (sc ∷ scopes) =
      let rest = validate_scope_configs upstream (sc.name ∷ seen) scopes in
      if is_empty sc.name
      then scope_name_required upstream ∷ []
      else if has_infix sc.name (text ":")
      then scope_name_colon upstream ∷ []
      else if contains seen sc.name
      then scope_duplicated upstream ∷ []
      else if is_empty sc.match
      then scope_match_required upstream ∷ []
      else if not (all_ok pattern_ok sc.match)
      then scope_pattern_invalid upstream ∷ []
      else rest

-- With whether regexp.Compile takes a pattern.
module _ (compiles : Text → Bool) where
  -- Whether NewRedactor takes the patterns of a section that is switched on and has some.
  abbrev pub bad_patterns : RedactConfig → Bool
  bad_patterns r = r.enabled && not (is_empty r.patterns) && not (all_ok compiles r.patterns)

  abbrev pub check_redact : Text → Option RedactConfig → List Invalid
  check_redact upstream none = []
  check_redact upstream (some r) = fault (bad_patterns r) (redact_invalid upstream)

  -- The errors of an upstream that are joined.
  unfoldable pub joined_upstream : List Text → UpstreamEntry → List Invalid
  unfolding undefined_refs
  joined_upstream defined u =
      undefined_refs (secret_undefined u.name) defined u.env
      ++ (undefined_refs (secret_undefined u.name) defined u.headers
          ++ (empty_headers u.name u.strip_headers ++ check_redact u.name u.redact))

  unfoldable pub joined_upstreams : List Text → List UpstreamEntry → List Invalid
  unfolding joined_upstream
  joined_upstreams defined [] = []
  joined_upstreams defined (u ∷ us) = joined_upstream defined u ++ joined_upstreams defined us

module _ (os : Platform) (pattern_ok : Text → Bool) where
  -- The body of the loop over the upstreams.
  unfoldable pub check_upstream : UpstreamEntry → List Invalid
  unfolding check_kind validate_reconnect_config validate_route_config validate_scope_configs
  check_upstream u = before (check_kind u) (
      before (validate_reconnect_config os u.name u.reconnect) (
        before (fault (not (is_duration os u.call_timeout)) (call_timeout_invalid u.name)) (
          before (validate_route_config u.name u.route)
            (validate_scope_configs pattern_ok u.name [] u.scopes))))

  unfoldable pub check_upstreams : List Text → List UpstreamEntry → List Invalid
  unfolding check_upstream
  check_upstreams seen [] = []
  check_upstreams seen (u ∷ us) =
      let rest = check_upstreams (u.name ∷ seen) us in
      if is_empty u.name
      then name_required ∷ []
      else if contains seen u.name
      then name_duplicated u.name ∷ []
      else before (check_upstream u) rest

module _ (os : Platform) (pattern_ok compiles : Text → Bool) where
  -- Validate, with the errors that it returns: none where it returns nil.
  unfoldable pub validate_config : GatewayConfig → List Invalid
  unfolding check_upstreams validate_route_collisions validate_blob check_secrets joined_upstreams
      joined_auth
  validate_config c =
      let defined = secret_names c.secrets in
      before (fault (is_empty c.upstreams) no_upstreams) (
        before (fault (not (is_duration os c.drain_timeout)) drain_timeout_invalid) (
          before (check_upstreams os pattern_ok [] c.upstreams) (
            before (validate_route_collisions [] c.upstreams) (
              before (validate_blob os c.blob) (
                before (check_secrets [] c.secrets) (
                  before
                    (joined_upstreams compiles defined c.upstreams ++ joined_auth os defined c.auth)
                    (fault (bad_patterns compiles c.redact) patterns_invalid)))))))
