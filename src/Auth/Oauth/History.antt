-- ===== src/Auth/Oauth/History.antt =====
-- mcpauth/oauth.go: what a request to issue a code, and one to exchange it, must have been.
use gooners.Base.{
  ◌≤◌, ◌≡◌, sym, ap, ◌∙◌, inr, true, false, ◌||◌, none, some, ◌++◌, arith, nat_eq, list_beq_iff,
  list_eq, is_empty, contains, Text, text,
}
use gooners.Auth.{Platform, Values, values_get, constant_time_equal}
use gooners.Auth.Oauth.{OauthCode, TokenInfo, Settings, Request, Outside, valid_client}
use gooners.Auth.Oauth.Authorize.{refuse_query, take_code, code_of, read_authorize, approve}
use gooners.Auth.Oauth.Token.{verify_pkce, info_of}

-- The query of an authorization names an address that the configuration lists, a client that it
-- takes, and a challenge.
abbrev pub IsQuery : Settings → Values → Type 0
IsQuery o q =
    (is_empty (values_get (text "redirect_uri") q) ≡ false)
    × (contains o.cfg.redirect_uris (values_get (text "redirect_uri") q) ≡ true)
    × (values_get (text "response_type") q ≡ text "code")
    × (valid_client o (values_get (text "client_id") q) ≡ true)
    × (is_empty (values_get (text "code_challenge") q) ≡ false)

module _ (os : Platform) (o : Settings) where
  -- The form carries the operator's secret, bare or as a Bearer credential.
  abbrev pub CarriesSecret : Values → Outside → Type 0
  CarriesSecret form out =
      (expected : Text) × (out.secret ≡ some expected)
      × ((constant_time_equal os (text "Bearer " ++ values_get (text "token") form) expected
            || constant_time_equal os (values_get (text "token") form) expected)
          ≡ true)

  abbrev pub IsApproval : Request → Outside → Text → OauthCode → Type 0
  IsApproval r out code stored =
      (form q : Values) × (r.path ≡ text "/authorize")
      × (r.method ≡ text "POST")
      × (r.form ≡ some form)
      × (os.parse_query (values_get (text "query") form) ≡ some q)
      × IsQuery o q
      × CarriesSecret form out
      × (out.random ≡ some code)
      × (stored ≡ code_of o q out)

  -- The form names the code, the address that the code was issued for, and a verifier of its
  -- challenge, before the code expires.
  abbrev pub IsExchange : Request → Outside → Text → OauthCode → Text → TokenInfo → Type 0
  IsExchange r out code stored token info =
      (form : Values) × (r.path ≡ text "/token")
      × (r.method ≡ text "POST")
      × (r.form ≡ some form)
      × (values_get (text "code") form ≡ code)
      × (values_get (text "redirect_uri") form ≡ stored.redirect_uri)
      × (valid_client o (values_get (text "client_id") form) ≡ true)
      × (verify_pkce os stored.code_challenge stored.code_challenge_method
            (values_get (text "code_verifier") form)
          ≡ true)
      × (out.now ≤ stored.expires)
      × (out.random ≡ some token)
      × (info ≡ info_of o stored out)

  refuse_query-IsQuery : (q : Values) → refuse_query os o q ≡ none → IsQuery o q
  unfolding refuse_query
  refuse_query-IsQuery q h =
      ground (arith, list_beq_iff (values_get (text "response_type") q) (text "code"))

  take_code-CarriesSecret :
      (form : Values) (out : Outside) (code : Text)
      → take_code os o form out ≡ inr code
      → CarriesSecret form out × (out.random ≡ some code)
  unfolding take_code
  take_code-CarriesSecret form out code h = ground arith

  read_authorize-reads :
      (r : Request) (form q : Values)
      → read_authorize os r ≡ inr (form, q)
      → (r.form ≡ some form) × (os.parse_query (values_get (text "query") form) ≡ some q)
  unfolding read_authorize
  read_authorize-reads r form q h = ground arith

  approve-steps :
      (r : Request) (out : Outside) (q : Values) (code : Text)
      → approve os o r out ≡ inr (q, code)
      → (form : Values) × (read_authorize os r ≡ inr (form, q))
        × (refuse_query os o q ≡ none)
        × (take_code os o form out ≡ inr code)
  unfolding approve
  approve-steps r out q code h = ground arith

  pub approve-IsApproval :
      (r : Request) (out : Outside) (q : Values) (code c : Text) (stored : OauthCode)
      → r.path ≡ text "/authorize"
      → r.method ≡ text "POST"
      → approve os o r out ≡ inr (q, code)
      → code ≡ c
      → code_of o q out ≡ stored
      → IsApproval r out c stored
  approve-IsApproval r out q code c stored hp hm h same made =
      let steps = approve-steps r out q code h in
      let form = steps.0 in
      let read = read_authorize-reads r form q steps.1 in
      let carries = take_code-CarriesSecret form out code steps.3 in
      (
        form,
        q,
        hp,
        hm,
        read.0,
        read.1,
        refuse_query-IsQuery q steps.2,
        carries.0,
        carries.1 ∙ ap some same,
        sym made,
      )
