-- ===== src/Auth/Oauth/Codes.antt =====
-- mcpauth/oauth.go: what becomes of a code that a request has named.
use gooners.Base.{
  ◌≡◌, refl, ap, ◌∙◌, ◌≢◌, inl, inr, none, some, List, [], ◌∷◌, arith, nat_eq, ==-self, list_eq,
  Option-cases, All, Text, text,
}
use gooners.Base.Map
use gooners.Base.Map.{Map}
use gooners.Auth.{Platform, Values, values_get}
use gooners.Auth.Oauth.{Settings, OauthState, Request, Outside, oauth_error}
use gooners.Auth.Oauth.Token.{exchange, read_token_form, serve_token}
use gooners.Auth.Oauth.Serve.{serve}
use gooners.Auth.Oauth.Changes.{serve-codes, exchange-codes}

module _ (os : Platform) (o : Settings) where
  serve_token-takes :
      (r : Request) (out : Outside) (s : OauthState) (form : Values)
      → read_token_form r ≡ inr form
      → Map.get (values_get (text "code") form) (serve_token os o r out s).0.codes ≡ none
  unfolding serve_token
  serve_token-takes r out s form e =
      let c = values_get (text "code") form in
      elim (Option-cases (Map.get c s.codes)) [
        | inl f ↦ rw (e, serve_token) rw (f, serve_token) f
        | inr (stored, f) ↦
            let taken = record s { codes = Map.delete c s.codes } in
            let after : Map.get c (exchange os o form stored out taken).0.codes ≡ none =
              ap (Map.get c) (exchange-codes os o r out taken form stored)
              ∙ ground (arith, Map.get-delete c c s.codes, ==-self c) in
            rw (e, serve_token) rw (f, serve_token) after
      ]

  serve_token-refuses :
      (r : Request) (out : Outside) (s : OauthState) (form : Values)
      → read_token_form r ≡ inr form
      → Map.get (values_get (text "code") form) s.codes ≡ none
      → serve_token os o r out s ≡ (s, oauth_error 400 (text "invalid_grant"))
  unfolding serve_token
  serve_token-refuses r out s form e f = rw (e, serve_token) rw (f, serve_token) refl

  -- A code that is not kept stays so, where the request does not draw it again.
  serve-gone :
      (r : Request) (out : Outside) (s : OauthState) (c : Text)
      → Map.get c s.codes ≡ none
      → out.random ≢ some c
      → Map.get c (serve os o r out s).0.codes ≡ none
  serve-gone r out s c gone fresh = elim (Option-cases (Map.get c (serve os o r out s).0.codes)) [
    | inl e ↦ e
    | inr (stored, e) ↦ elim (serve-codes os o r out s c stored e) [
      | inl old ↦ cc
      | inr made ↦ elim (fresh made.8) [ ]
    ]
  ]

  -- The state after some requests, the latest of them first.
  unfoldable pub serve_all : List (Request × Outside) → OauthState → OauthState
  serve_all [] s = s
  serve_all ((r, out) ∷ past) s = (serve os o r out (serve_all past s)).0

  serve_all-gone :
      (past : List (Request × Outside)) (s : OauthState) (c : Text)
      → Map.get c s.codes ≡ none
      → All (λ x. x.1.random ≢ some c) past
      → Map.get c (serve_all past s).codes ≡ none
  unfolding serve_all
  serve_all-gone [] s c gone fresh = gone
  serve_all-gone ((r, out) ∷ past) s c gone fresh =
      serve-gone r out (serve_all past s) c (serve_all-gone past s c gone fresh.1) fresh.0

  -- Once a well-formed request for a token has named a code, whether it got a token or not, every later
  -- request for a token that names it is refused as invalid_grant and changes nothing, where no random
  -- token that is drawn in between is that code again.
  pub serve_token-once :
      (first : Request) (out : Outside) (s : OauthState) (form : Values)
      (past : List (Request × Outside)) (again : Request) (out' : Outside) (form' : Values)
      → read_token_form first ≡ inr form
      → read_token_form again ≡ inr form'
      → values_get (text "code") form' ≡ values_get (text "code") form
      → All (λ x. x.1.random ≢ some (values_get (text "code") form)) past
      → serve_token os o again out' (serve_all past (serve_token os o first out s).0)
        ≡ (serve_all past (serve_token os o first out s).0, oauth_error 400 (text "invalid_grant"))
  serve_token-once first out s form past again out' form' one two same fresh =
      serve_token-refuses again out' (serve_all past (serve_token os o first out s).0) form' two (
        rw same (
          serve_all-gone past (serve_token os o first out s).0 (values_get (text "code") form)
            (serve_token-takes first out s form one) fresh))
