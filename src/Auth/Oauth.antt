-- ===== src/Auth/Oauth.antt =====
-- mcpauth/oauth.go: the endpoints of the OAuth facade and the codes and tokens that it keeps. A
-- request is handled in one step: the two locked parts of one request work on different maps.
pub mod Authorize
pub mod Token
pub mod Serve
pub mod Codes
pub mod History
pub mod Changes
use gooners.Base.{
  ℕ, zero, suc, ◌+◌, ◌-◌, ◌*◌, ◌≤◌, ◌<◌, ◌≡◌, refl, sym, ap, ◌∙◌, ◌≢◌, ◌↔◌, ◌⊎◌, inl, inr, Bool,
  true, false, not, ◌&&◌, ◌||◌, Option, none, some, List, [], ◌∷◌, ◌++◌, map, arith, ltb, leb,
  nat_beq, if◌then◌else◌, Eq, ◌==◌, nat_eq, ==-self, list_beq, list_beq_iff, list_eq, Bool-cases,
  Option-cases, length, get_elem?, take, drop, keep, is_empty, get_or, is_some, or_else,
  length-append, length-keep-le, keep-append, All, All-append, contains, count, contains-append,
  contains-keep, Text, text, to_lower, has_prefix, has_infix, has_suffix, trim_prefix,
  trim_prefix-append, is_space, fields, trim_left, trim_space, cut_at, join,
}
use gooners.Base.Map
use gooners.Base.Map.{Map}
use gooners.Auth.{
  pos, ℤ, OauthConfig, Platform, Values, values_get, parse_optional_duration, constant_time_equal,
}

pub record OauthCode : Type 0 where
  pub client_id : Text
  pub redirect_uri : Text
  pub scope : Text
  pub code_challenge : Text
  pub code_challenge_method : Text
  pub expires : ℕ

-- auth.TokenInfo, with the fields that the code sets.
pub record TokenInfo : Type 0 where
  pub scopes : List Text
  pub expiration : ℕ

-- What newOAuthState sets and no request changes.
pub record Settings : Type 0 where
  pub cfg : OauthConfig
  pub name : Text
  pub token_ttl : ℕ
  pub fallback_scopes : List Text

pub record OauthState : Type 0 where
  pub codes : Map Text OauthCode
  pub tokens : Map Text TokenInfo

pub record Request : Type 0 where
  pub method : Text
  pub path : Text
  pub raw_query : Text
  pub header : Values
  -- ParseForm, with none for its error.
  pub form : Option Values

-- What one request meets outside the program: the secret, or none for an error of its resolver, the
-- next random token, and the clock when the request is looked at and when a token is made.
pub record Outside : Type 0 where
  pub secret : Option Text
  pub random : Option Text
  pub now : ℕ
  pub later : ℕ

pub data Reply : Type 0 where
  -- http.Error with a status and a text
  http_error : ℕ → Text → Reply
  no_content : Reply
  -- the consent page, with the query and the message on it
  authorize_page : Text → Text → Reply
  redirect : Text → Reply
  oauth_error : ℕ → Text → Reply
  -- the access token, the seconds until it expires, and its scope
  token_reply : Text → ℕ → Text → Reply
  -- the resource, the authorization server, the scopes and the name
  resource_metadata : Text → Text → List Text → Text → Reply
  -- the issuer and the scopes, which the other fields are made of
  server_metadata : Text → List Text → Reply
  jwks : Reply

-- The token's time to live is an hour where the configuration has no positive one.
abbrev ttl_of : Option ℤ → ℕ
ttl_of (some (pos (suc n))) = suc n
ttl_of _ = 3600000000000

abbrev pub empty_state : OauthState
empty_state = record { codes = []; tokens = [] }

unfoldable pub new_oauth_state :
    Platform → OauthConfig → Text → List Text → Option (Settings × OauthState)
new_oauth_state os cfg name scopes =
    if not cfg.enabled
    then none
    else some (
      record {
        cfg = cfg;
        name = name;
        token_ttl = ttl_of (parse_optional_duration os cfg.token_ttl);
        fallback_scopes = scopes;
      },
      empty_state,
    )

abbrev pub valid_client : Settings → Text → Bool
valid_client o client_id = is_empty o.cfg.client_id || client_id == o.cfg.client_id

abbrev pub valid_redirect_uri : Settings → Text → Bool
valid_redirect_uri o redirect_uri = contains o.cfg.redirect_uris redirect_uri

abbrev pub supported_scopes : Settings → List Text
supported_scopes o =
    if not (is_empty o.cfg.scopes)
    then o.cfg.scopes
    else if not (is_empty o.fallback_scopes)
    then o.fallback_scopes
    else text "mcp" ∷ []

unfoldable pub normalize_scope : Settings → Text → Text
normalize_scope o scope =
    if not (is_empty scope) then scope else join (text " ") (supported_scopes o)

-- The reply of allowMetadataRequest, with none where the request is allowed.
abbrev pub refuse_metadata_request : Request → Option Reply
refuse_metadata_request r =
    if r.method == text "OPTIONS"
    then some no_content
    else if not (r.method == text "GET")
    then some (http_error 405 (text "Method Not Allowed"))
    else none

abbrev pub serve_metadata : Request → Reply → Reply
serve_metadata r reply = get_or (refuse_metadata_request r) reply

-- The values that a redirect sets: one of the code's own, and the state that the client sent.
abbrev pub with_state : Text → Text → Values → List (Text × Text)
with_state name value q =
    let state = values_get (text "state") q in
    if is_empty state then (name, value) ∷ [] else (name, value) ∷ ((text "state", state) ∷ [])
