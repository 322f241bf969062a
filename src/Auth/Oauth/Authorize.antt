-- ===== src/Auth/Oauth/Authorize.antt =====
-- mcpauth/oauth.go: the authorization endpoint, which issues codes.
use gooners.Base.{
  ◌+◌, ◌⊎◌, inl, inr, not, ◌&&◌, ◌||◌, Option, none, some, [], ◌++◌, if◌then◌else◌, ◌==◌, nat_eq,
  list_eq, is_empty, Text, text,
}
use gooners.Base.Map
use gooners.Base.Map.{Map}
use gooners.Auth.{Platform, Values, values_get, constant_time_equal}
use gooners.Auth.Oauth.{
  OauthCode, Settings, OauthState, Request, Outside, Reply, http_error, authorize_page, redirect,
  valid_client, valid_redirect_uri, normalize_scope, with_state,
}

unfoldable pub code_of : Settings → Values → Outside → OauthCode
unfolding normalize_scope
code_of o q out = record {
  client_id = values_get (text "client_id") q;
  redirect_uri = values_get (text "redirect_uri") q;
  scope = normalize_scope o (values_get (text "scope") q);
  code_challenge = values_get (text "code_challenge") q;
  code_challenge_method = values_get (text "code_challenge_method") q;
  expires = out.now + 300000000000;
}

-- The form and the query in it, or the reply.
unfoldable pub read_authorize : Platform → Request → Reply ⊎ (Values × Values)
read_authorize os r = elim r.form [
  | none ↦ inl (http_error 400 (text "bad form"))
  | some form ↦ elim (os.parse_query (values_get (text "query") form)) [
    | none ↦ inl (http_error 400 (text "bad authorization request"))
    | some q ↦ inr (form, q)
  ]
]

-- The reply that carries the code to the client.
unfoldable pub send_code : Platform → Values → Text → Reply
send_code os q code =
    elim (os.set_query (values_get (text "redirect_uri") q) (with_state (text "code") code q)) [
      | none ↦ http_error 400 (text "bad redirect_uri")
      | some location ↦ redirect location
    ]

module _ (os : Platform) (o : Settings) where
  redirect_oauth_error : Values → Text → Text → Reply
  redirect_oauth_error q redirect_uri code =
      if is_empty redirect_uri || not (valid_redirect_uri o redirect_uri)
      then http_error 400 code
      else elim (os.set_query redirect_uri (with_state (text "error") code q)) [
        | none ↦ http_error 400 code
        | some location ↦ redirect location
      ]

  -- The checks of the request that is being authorized: an error, or none.
  unfoldable pub refuse_query : Values → Option Reply
  unfolding redirect_oauth_error
  refuse_query q =
      let redirect_uri = values_get (text "redirect_uri") q in
      if is_empty redirect_uri || not (valid_redirect_uri o redirect_uri)
      then some (http_error 400 (text "invalid or unregistered redirect_uri"))
      else if not (values_get (text "response_type") q == text "code")
      then some (redirect_oauth_error q redirect_uri (text "unsupported_response_type"))
      else if not (valid_client o (values_get (text "client_id") q))
      then some (redirect_oauth_error q redirect_uri (text "unauthorized_client"))
      else if is_empty (values_get (text "code_challenge") q)
      then some (redirect_oauth_error q redirect_uri (text "invalid_request"))
      else none

  -- The checks of the operator's token, with the code to give out or the reply.
  unfoldable pub take_code : Values → Outside → Reply ⊎ Text
  unfolding constant_time_equal
  take_code form out = elim out.secret [
    | none ↦ inl (http_error 503 (text "Service Unavailable"))
    | some expected ↦
        let token = values_get (text "token") form in
        if not (constant_time_equal os (text "Bearer " ++ token) expected)
          && not (constant_time_equal os token expected)
        then inl (authorize_page (values_get (text "query") form) (text "Invalid token"))
        else elim out.random [
          | none ↦ inl (http_error 500 (text "Internal Server Error"))
          | some code ↦ inr code
        ]
  ]

  -- The code that a post issues, and what it stands for.
  unfoldable pub approve : Request → Outside → Reply ⊎ (Values × Text)
  unfolding refuse_query take_code read_authorize
  approve r out = elim (read_authorize os r) [
    | inl reply ↦ inl reply
    | inr (form, q) ↦ elim (refuse_query q) [
      | some reply ↦ inl reply
      | none ↦ elim (take_code form out) [ inl reply ↦ inl reply | inr code ↦ inr (q, code) ]
    ]
  ]

  unfoldable pub handle_authorize_post : Request → Outside → OauthState → OauthState × Reply
  unfolding approve code_of send_code
  handle_authorize_post r out s = elim (approve r out) [
    | inl reply ↦ (s, reply)
    | inr (q, code) ↦
        (record s { codes = Map.put code (code_of o q out) s.codes }, send_code os q code)
  ]

  unfoldable pub serve_authorize : Request → Outside → OauthState → OauthState × Reply
  unfolding handle_authorize_post
  serve_authorize r out s =
      if r.method == text "GET"
      then (s, authorize_page r.raw_query [])
      else if r.method == text "POST"
      then handle_authorize_post r out s
      else (s, http_error 405 (text "Method Not Allowed"))
