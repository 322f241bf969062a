-- ===== src/Auth/Samples.antt =====
-- A server with one client, whose operator's secret is `s` and whose sums are the texts themselves.
use gooners.Base.{
  ℕ, ◌≤◌, ◌≡◌, refl, ◌⊎◌, inr, true, false, none, some, List, [], ◌∷◌, nat_eq, list_eq, Text, text,
  fields, join,
}
use gooners.Base.Map
use gooners.Base.Map.{Map}
use gooners.Auth.{
  constant_time_equal, values_get, value_required, Config, OauthConfig, Platform, validate, Values,
}
use gooners.Auth.Oauth.{
  token_reply, Settings, TokenInfo, Request, Outside, empty_state, oauth_error,
}
use gooners.Auth.Oauth.Codes.{serve_token-once, serve_all}
use gooners.Auth.Oauth.Token.{read_token_form, serve_token}
use gooners.Auth.Middleware.{secret_of, Bearer, Guard, handle, passed, strip, middleware}
use gooners.Auth.Middleware.Provenance.{run, handle-provenance, IsStripped, Granted}

abbrev one : Text → Text → Text × List Text
one name value = (name, value ∷ [])

abbrev asked : Values
asked =
    one (text "redirect_uri") (text "app:/cb")
    ∷ (one (text "response_type") (text "code") ∷ (one (text "code_challenge") (text "v") ∷ []))

abbrev os : Platform
os = record {
  parse_duration = λ s. none;
  parse_query = λ s. some asked;
  set_query = λ u vs. some u;
  sum256 = λ s. s;
  encode = λ s. s;
  canonical = λ s. s;
}

abbrev bearer : Bearer
bearer = record { token = λ v. inr (text "t"); judge = λ i now. none }

abbrev oauth_config : OauthConfig
oauth_config = record {
  enabled = true;
  issuer = text "https://me";
  resource = text "https://me/mcp";
  scopes = [];
  client_id = [];
  token_ttl = [];
  redirect_uris = text "app:/cb" ∷ [];
}

abbrev config : Config
config = record { enabled = true; header = text "X-Key"; value = text "s"; oauth = oauth_config }

abbrev settings : Settings
settings = record {
  cfg = oauth_config;
  name = text "mcp";
  token_ttl = 3600000000000;
  fallback_scopes = [];
}

abbrev server : Guard
server = record { cfg = config; name = text "mcp"; has_resolver = false; oauth = some settings }

abbrev at : ℕ → Text → Outside
at now random = record { secret = none; random = some random; now = now; later = now }

abbrev post : Text → Values → Request
post path form = record {
  method = text "POST";
  path = path;
  raw_query = [];
  header = [];
  form = some form;
}

abbrev authorize : Request
authorize = post (text "/authorize") (one (text "token") (text "s") ∷ [])

abbrev exchange_form : Values
exchange_form =
    one (text "grant_type") (text "authorization_code")
    ∷ (one (text "code") (text "c")
        ∷ (one (text "redirect_uri") (text "app:/cb")
            ∷ (one (text "code_verifier") (text "v") ∷ [])))

abbrev exchange : Request
exchange = post (text "/token") exchange_form

abbrev call : Request
call = post (text "/mcp") []

abbrev history : List (Request × Outside)
history = (exchange, at 10 (text "t")) ∷ ((authorize, at 1 (text "c")) ∷ [])

abbrev granted : TokenInfo
granted = record { scopes = text "mcp" ∷ []; expiration = 3600000000010 }

passes_call :
    (handle os bearer server call (at 20 (text "x")) (run os bearer server history)).1
    ≡ passed (strip os server call) (some granted)
unfolding handle run strip Map.get Map.delete Map.put values_get fields join
passes_call = refl

handle-provenance_example :
    IsStripped os server (strip os server call)
    × (((some granted ≡ none)
          × ((expected : Text) × (secret_of server (at 20 (text "x")) ≡ some expected)
              × (constant_time_equal os
                    (values_get (os.canonical (text "X-Key")) call.header)
                    expected
                  ≡ true)))
        ⊎ ((o : Settings) × (t : Text) × (i : TokenInfo) × (server.oauth ≡ some o)
            × (bearer.token call.header ≡ inr t)
            × (some granted ≡ some i)
            × Granted os bearer server o t i history
            × (20 ≤ i.expiration)))
unfolding handle run strip Map.get Map.delete Map.put values_get fields join
handle-provenance_example =
    handle-provenance os bearer server history call (strip os server call) (at 20 (text "x"))
      (some granted) refl

serve_token-once_example :
    serve_token os settings exchange (at 11 (text "t2")) (
      serve_all os settings
        ((call, at 9 []) ∷ [])
        (serve_token os settings exchange
          (at 8 (text "t"))
          (run os bearer server ((authorize, at 1 (text "c")) ∷ []))).0)
    ≡ (
      serve_all os settings
          ((call, at 9 []) ∷ [])
          (serve_token os settings exchange
            (at 8 (text "t"))
            (run os bearer server ((authorize, at 1 (text "c")) ∷ []))).0,
      oauth_error 400 (text "invalid_grant"),
    )
unfolding read_token_form Map.get values_get
serve_token-once_example =
    serve_token-once os settings exchange (at 8 (text "t"))
      (run os bearer server ((authorize, at 1 (text "c")) ∷ [])) exchange_form
      ((call, at 9 []) ∷ []) exchange (at 11 (text "t2")) exchange_form refl refl refl
      ((λ h. cc), tt)

-- A resolver that gives the empty text lets a request without the header through.
empty_secret_passes :
    (handle os bearer
      (record server { has_resolver = true })
      call
      (record (at 1 (text "x")) { secret = some [] })
      empty_state).1
    ≡ passed (strip os server call) none
unfolding handle strip Map.delete values_get Map.get
empty_secret_passes = refl

-- Without a configured client, a code is given for a token to a client that did not ask for it.
other_client_exchanges :
    (serve_token os settings
      (post (text "/token") (one (text "client_id") (text "other") ∷ exchange_form))
      (at 3 (text "t"))
      (run os bearer server ((authorize, at 1 (text "c")) ∷ []))).1
    ≡ token_reply (text "t") 3600 (text "mcp")
unfolding serve_token handle run strip Map.get Map.delete Map.put values_get fields join
other_client_exchanges = refl

expired_code :
    (serve_token os settings exchange
      (at 300000000002 (text "t"))
      (run os bearer server ((authorize, at 1 (text "c")) ∷ []))).1
    ≡ oauth_error 400 (text "invalid_grant")
unfolding serve_token handle run strip Map.get Map.delete Map.put values_get fields join
expired_code = refl

disabled_is_none :
    middleware os
      (record config { enabled = false })
      (record { name = []; has_resolver = false; scopes = [] })
    ≡ none
unfolding middleware
disabled_is_none = refl

no_value_is_reported : validate os (record config { value = [] }) ≡ value_required ∷ []
unfolding validate
no_value_is_reported = refl
