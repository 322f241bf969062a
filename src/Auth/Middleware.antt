-- ===== src/Auth/Middleware.antt =====
-- mcpauth/auth.go: the handler that lets a request through to the next one, or answers it.
pub mod Steps
pub mod Provenance
use gooners.Base.{
  ℕ, zero, suc, ◌+◌, ◌-◌, ◌*◌, ◌≤◌, ◌<◌, ◌≡◌, refl, sym, ap, ◌∙◌, ◌≢◌, ◌↔◌, ◌⊎◌, inl, inr, Bool,
  true, false, not, ◌&&◌, ◌||◌, Option, none, some, List, [], ◌∷◌, ◌++◌, map, arith, ltb, leb,
  nat_beq, if◌then◌else◌, Eq, ◌==◌, nat_eq, ==-self, list_beq, list_beq_iff, list_eq, Bool-cases,
  Option-cases, length, get_elem?, take, drop, keep, is_empty, get_or, is_some, or_else,
  length-append, length-keep-le, keep-append, All, All-append, contains, count, contains-append,
  contains-keep, Text, text, to_lower, has_prefix, has_infix, has_suffix, trim_prefix,
  trim_prefix-append, is_space, fields, trim_left, trim_space, cut_at, join,
}
use gooners.Base.Map
use gooners.Base.Map.{Map}
use gooners.Auth.{Config, Platform, Values, values_get, constant_time_equal}
use gooners.Auth.Oauth.{
  OauthState, Settings, TokenInfo, Request, Outside, Reply, http_error, new_oauth_state,
  empty_state,
}
use gooners.Auth.Oauth.Token.{verify_access_token}
use gooners.Auth.Oauth.Serve.{serve}

-- Options; a server has a resolver of its own, or compares with the value of the configuration.
pub record Options : Type 0 where
  pub name : Text
  pub has_resolver : Bool
  pub scopes : List Text

-- auth.RequireBearerToken: the token that it finds in the headers, or the status that it refuses them
-- with, and the status that it refuses a verified token with, if any.
pub record Bearer : Type 0 where
  pub token : Values → ℕ ⊎ Text
  pub judge : TokenInfo → ℕ → Option ℕ

-- What Middleware binds before it serves a request.
pub record Guard : Type 0 where
  pub cfg : Config
  pub name : Text
  pub has_resolver : Bool
  pub oauth : Option Settings

pub data Answer : Type 0 where
  reply : Reply → Answer
  refused : ℕ → Answer
  -- The request reaches the next handler, with the token's info in its context.
  passed : Request → Option TokenInfo → Answer

abbrev default_name : Text → Text
default_name name = if is_empty name then text "mcp" else name

-- Middleware, with none for a nil return.
unfoldable pub middleware : Platform → Config → Options → Option (Guard × OauthState)
middleware os cfg opts =
    let name = default_name opts.name in
    if not cfg.enabled then none else elim (new_oauth_state os cfg.oauth name opts.scopes) [
      | none ↦ some (
        record { cfg = cfg; name = name; has_resolver = opts.has_resolver; oauth = none },
        empty_state,
      )
      | some (o, s) ↦
          some
            (record { cfg = cfg; name = name; has_resolver = opts.has_resolver; oauth = some o }, s)
    ]

-- secret(r.Context())
abbrev pub secret_of : Guard → Outside → Option Text
secret_of g out = if g.has_resolver then out.secret else some g.cfg.value

-- The request without the header that carries the credential.
unfoldable pub strip : Platform → Guard → Request → Request
strip os g r = record r { header = Map.delete (os.canonical g.cfg.header) r.header }

module _ (os : Platform) (bearer : Bearer) where
  -- What RequireBearerToken does with the verifier and the next handler.
  unfoldable pub serve_bearer : Guard → Request → Outside → OauthState → OauthState × Answer
  unfolding strip verify_access_token
  serve_bearer g r out s = elim (bearer.token r.header) [
    | inl status ↦ (s, refused status)
    | inr token ↦
        let verified = verify_access_token out.now token s in
        elim verified.1 [
          | none ↦ (verified.0, refused 401)
          | some info ↦ elim (bearer.judge info out.now) [
            | some status ↦ (verified.0, refused status)
            | none ↦ (verified.0, passed (strip os g r) (some info))
          ]
        ]
  ]

  -- What the handler does with a request that no endpoint answers.
  unfoldable pub guard : Guard → Request → Outside → OauthState → OauthState × Answer
  unfolding strip serve_bearer constant_time_equal
  guard g r out s = elim (secret_of g out) [
    | none ↦ (s, reply (http_error 503 (text "Service Unavailable")))
    | some expected ↦
        if constant_time_equal os (values_get (os.canonical g.cfg.header) r.header) expected
        then (s, passed (strip os g r) none)
        else elim g.oauth [
          | none ↦ (s, reply (http_error 401 (text "Unauthorized")))
          | some o ↦ serve_bearer g r out s
        ]
  ]

  unfoldable pub handle : Guard → Request → Outside → OauthState → OauthState × Answer
  unfolding guard serve
  handle g r out s = elim g.oauth [
    | none ↦ guard g r out s
    | some o ↦
        let served = serve os o r (record out { secret = secret_of g out }) s in
        elim served.1 [ some x ↦ (served.0, reply x) | none ↦ guard g r out s ]
  ]
