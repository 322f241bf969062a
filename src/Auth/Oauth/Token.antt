-- ===== src/Auth/Oauth/Token.antt =====
-- mcpauth/oauth.go: the token endpoint, which takes a code for a token, and the check of a token.
use Prim.Native.Nat.{◌/◌}
use gooners.Base.{
  ℕ, ◌+◌, ◌⊎◌, inl, inr, Bool, false, not, ◌||◌, Option, none, some, ltb, if◌then◌else◌, ◌==◌,
  nat_eq, list_eq, is_empty, Text, text, fields,
}
use gooners.Base.Map
use gooners.Base.Map.{Map}
use gooners.Auth.{Platform, Values, values_get, constant_time_equal}
use gooners.Auth.Oauth.{
  OauthCode, TokenInfo, Settings, OauthState, Request, Outside, Reply, http_error, oauth_error,
  token_reply, valid_client,
}

unfoldable pub verify_pkce : Platform → Text → Text → Text → Bool
unfolding constant_time_equal
verify_pkce os challenge method verifier =
    if is_empty challenge
    then false
    else if is_empty verifier
    then false
    else if is_empty method || method == text "plain"
    then constant_time_equal os verifier challenge
    else if not (method == text "S256")
    then false
    else constant_time_equal os (os.encode (os.sum256 verifier)) challenge

unfoldable pub info_of : Settings → OauthCode → Outside → TokenInfo
info_of o stored out = record { scopes = fields stored.scope; expiration = out.later + o.token_ttl }

-- The form of a request for a token, or the reply.
unfoldable pub read_token_form : Request → Reply ⊎ Values
read_token_form r =
    if not (r.method == text "POST")
    then inl (http_error 405 (text "Method Not Allowed"))
    else elim r.form [
      | none ↦ inl (oauth_error 400 (text "invalid_request"))
      | some form ↦
          if not (values_get (text "grant_type") form == text "authorization_code")
          then inl (oauth_error 400 (text "unsupported_grant_type"))
          else inr form
    ]

module _ (os : Platform) (o : Settings) where
  -- The checks of the form against the code that it names, and the error they end with.
  unfoldable pub refuse_exchange : Values → OauthCode → Outside → Bool
  unfolding verify_pkce
  refuse_exchange form stored out =
      ltb stored.expires out.now
      || (not (stored.redirect_uri == values_get (text "redirect_uri") form)
          || not (valid_client o (values_get (text "client_id") form)))
      || not (
          verify_pkce os stored.code_challenge stored.code_challenge_method
            (values_get (text "code_verifier") form))

  -- What follows the removal of the code: an error, or a new token.
  unfoldable pub exchange : Values → OauthCode → Outside → OauthState → OauthState × Reply
  unfolding refuse_exchange info_of
  exchange form stored out s =
      if refuse_exchange form stored out
      then (s, oauth_error 400 (text "invalid_grant"))
      else elim out.random [
        | none ↦ (s, oauth_error 500 (text "server_error"))
        | some token ↦ (
          record s { tokens = Map.put token (info_of o stored out) s.tokens },
          token_reply token (o.token_ttl / 1000000000) stored.scope,
        )
      ]

  unfoldable pub serve_token : Request → Outside → OauthState → OauthState × Reply
  unfolding read_token_form exchange
  serve_token r out s = elim (read_token_form r) [
    | inl reply ↦ (s, reply)
    | inr form ↦
        let code = values_get (text "code") form in
        elim (Map.get code s.codes) [
          | none ↦ (s, oauth_error 400 (text "invalid_grant"))
          | some stored ↦ exchange form stored out (record s { codes = Map.delete code s.codes })
        ]
  ]

-- verifyAccessToken at a time, with none for auth.ErrInvalidToken.
unfoldable pub verify_access_token : ℕ → Text → OauthState → OauthState × Option TokenInfo
verify_access_token now token s = elim (Map.get token s.tokens) [
  | none ↦ (s, none)
  | some info ↦
      if ltb info.expiration now
      then (record s { tokens = Map.delete token s.tokens }, none)
      else (s, some info)
]
