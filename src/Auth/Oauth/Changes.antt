-- ===== src/Auth/Oauth/Changes.antt =====
-- mcpauth/oauth.go: how one request changes the codes and the tokens that are kept.
use gooners.Base.{
  ◌≤◌, ◌≡◌, refl, sym, ap, ◌∙◌, ◌⊎◌, inl, inr, true, false, some, arith, nat_eq, list_beq_iff,
  list_eq, Sum-cases, Option-cases, Text, text,
}
use gooners.Base.Map
use gooners.Base.Map.{Map}
use gooners.Auth.{Platform, Values, values_get}
use gooners.Auth.Oauth.{OauthCode, TokenInfo, Settings, OauthState, Request, Outside, valid_client}
use gooners.Auth.Oauth.Authorize.{code_of, approve, handle_authorize_post, serve_authorize}
use gooners.Auth.Oauth.Token.{
  verify_pkce, refuse_exchange, info_of, exchange, read_token_form, serve_token,
}
use gooners.Auth.Oauth.Serve.{serve}
use gooners.Auth.Oauth.History.{IsApproval, IsExchange, approve-IsApproval}

module _ (os : Platform) (o : Settings) (r : Request) (out : Outside) (s : OauthState) where
  post-cases :
      ((handle_authorize_post os o r out s).0 ≡ s)
      ⊎ ((q : Values) × (code : Text) × (approve os o r out ≡ inr (q, code))
          × ((handle_authorize_post os o r out s).0
              ≡ record s { codes = Map.put code (code_of o q out) s.codes }))
  unfolding handle_authorize_post
  post-cases = ground (arith, Sum-cases (approve os o r out))

  post-codes :
      (c : Text) (stored : OauthCode)
      → r.path ≡ text "/authorize"
      → r.method ≡ text "POST"
      → Map.get c (handle_authorize_post os o r out s).0.codes ≡ some stored
      → (Map.get c s.codes ≡ some stored) ⊎ IsApproval os o r out c stored
  post-codes c stored hp hm h = elim post-cases [
    | inl e ↦ inl (rw e at h)
    | inr (q, code, ok, e) ↦
        elim (Map.put-some code c (code_of o q out) stored s.codes (rw e at h)) [
          | inl old ↦ inl old
          | inr (same, made) ↦
              inr (approve-IsApproval os o r out q code c stored hp hm ok same made)
        ]
  ]

  post-tokens : (handle_authorize_post os o r out s).0.tokens ≡ s.tokens
  post-tokens = elim post-cases [
    | inl e ↦ ap (λ x. x.tokens) e
    | inr (q, code, ok, e) ↦ ap (λ x. x.tokens) e
  ]

  exchange-cases :
      (form : Values) (stored : OauthCode)
      → ((exchange os o form stored out s).0 ≡ s)
        ⊎ ((token : Text) × (refuse_exchange os o form stored out ≡ false)
            × (out.random ≡ some token)
            × ((exchange os o form stored out s).0
                ≡ record s { tokens = Map.put token (info_of o stored out) s.tokens }))
  unfolding exchange
  exchange-cases form stored = ground (arith, Option-cases out.random)

  refuse_exchange-accepts :
      (form : Values) (stored : OauthCode)
      → refuse_exchange os o form stored out ≡ false
      → (values_get (text "redirect_uri") form ≡ stored.redirect_uri)
        × (valid_client o (values_get (text "client_id") form) ≡ true)
        × (verify_pkce os stored.code_challenge stored.code_challenge_method
              (values_get (text "code_verifier") form)
            ≡ true)
        × (out.now ≤ stored.expires)
  unfolding refuse_exchange
  refuse_exchange-accepts form stored h =
      ground (arith, list_beq_iff stored.redirect_uri (values_get (text "redirect_uri") form))

  exchange-tokens :
      (form : Values) (stored : OauthCode) (t : Text) (info : TokenInfo)
      → r.path ≡ text "/token"
      → r.method ≡ text "POST"
      → r.form ≡ some form
      → Map.get t (exchange os o form stored out s).0.tokens ≡ some info
      → (Map.get t s.tokens ≡ some info)
        ⊎ IsExchange os o r out (values_get (text "code") form) stored t info
  exchange-tokens form stored t info hp hm hf h = elim (exchange-cases form stored) [
    | inl e ↦ inl (rw e at h)
    | inr (token, ok, random, e) ↦
        elim (Map.put-some token t (info_of o stored out) info s.tokens (rw e at h)) [
          | inl old ↦ inl old
          | inr (same, made) ↦
              let a = refuse_exchange-accepts form stored ok in
              inr (form, hp, hm, hf, refl, a.0, a.1, a.2, a.3, random ∙ ap some same, sym made)
        ]
  ]

  pub exchange-codes :
      (form : Values) (stored : OauthCode) → (exchange os o form stored out s).0.codes ≡ s.codes
  exchange-codes form stored = elim (exchange-cases form stored) [
    | inl e ↦ ap (λ x. x.codes) e
    | inr (token, ok, random, e) ↦ ap (λ x. x.codes) e
  ]

module _ (os : Platform) (o : Settings) (r : Request) (out : Outside) (s : OauthState) where
  read_token_form-reads :
      (form : Values)
      → read_token_form r ≡ inr form
      → (r.method ≡ text "POST") × (r.form ≡ some form)
  unfolding read_token_form
  read_token_form-reads form h = ground (arith, list_beq_iff r.method (text "POST"))

  -- A request for a token changes nothing, or names a code that is kept and takes it away.
  serve_token-cases :
      ((serve_token os o r out s).0 ≡ s)
      ⊎ ((form : Values) × (stored : OauthCode) × (r.method ≡ text "POST")
          × (r.form ≡ some form)
          × (Map.get (values_get (text "code") form) s.codes ≡ some stored)
          × ((serve_token os o r out s).0
              ≡ (exchange os o form stored out
                  (record s { codes = Map.delete (values_get (text "code") form) s.codes })).0))
  unfolding serve_token
  serve_token-cases = elim (Sum-cases (read_token_form r)) [
    | inl (reply, e) ↦ inl (rw (e, serve_token))
    | inr (form, e) ↦
        let read = read_token_form-reads form e in
        elim (Option-cases (Map.get (values_get (text "code") form) s.codes)) [
          | inl f ↦ inl (rw (e, serve_token) rw (f, serve_token) refl)
          | inr (stored, f) ↦
              inr (form, stored, read.0, read.1, f, rw (e, serve_token) rw (f, serve_token) refl)
        ]
  ]

  serve_token-codes :
      (c : Text) (stored : OauthCode)
      → Map.get c (serve_token os o r out s).0.codes ≡ some stored
      → Map.get c s.codes ≡ some stored
  serve_token-codes c stored h = elim serve_token-cases [
    | inl e ↦ rw e at h
    | inr (form, kept, hm, hf, found, e) ↦
        let named = values_get (text "code") form in
        let s' = record s { codes = Map.delete named s.codes } in
        Map.delete-some named c stored s.codes (
          sym (
            ap (λ x. Map.get c x.codes) e ∙ ap (Map.get c) (exchange-codes os o r out s' form kept))
          ∙ h)
  ]

  serve_token-tokens :
      (t : Text) (info : TokenInfo)
      → r.path ≡ text "/token"
      → Map.get t (serve_token os o r out s).0.tokens ≡ some info
      → (Map.get t s.tokens ≡ some info)
        ⊎ ((c : Text) × (stored : OauthCode) × (Map.get c s.codes ≡ some stored)
            × IsExchange os o r out c stored t info)
  serve_token-tokens t info hp h = elim serve_token-cases [
    | inl e ↦ inl (rw e at h)
    | inr (form, kept, hm, hf, found, e) ↦
        let named = values_get (text "code") form in
        let s' = record s { codes = Map.delete named s.codes } in
        elim (exchange-tokens os o r out s' form kept t info hp hm hf (rw e at h)) [
          | inl old ↦ inl old
          | inr made ↦ inr (named, kept, found, made)
        ]
  ]

  serve-cases :
      ((serve os o r out s).0 ≡ s)
      ⊎ ((r.path ≡ text "/authorize")
          × (r.method ≡ text "POST")
          × ((serve os o r out s).0 ≡ (handle_authorize_post os o r out s).0))
      ⊎ ((r.path ≡ text "/token") × ((serve os o r out s).0 ≡ (serve_token os o r out s).0))
  unfolding serve serve_authorize
  serve-cases = ground (
    arith,
    list_beq_iff r.path (text "/authorize"),
    list_beq_iff r.path (text "/token"),
    list_beq_iff r.method (text "POST"),
  )

  -- A code that is kept after a request was kept before it, or the request issues it.
  pub serve-codes :
      (c : Text) (stored : OauthCode)
      → Map.get c (serve os o r out s).0.codes ≡ some stored
      → (Map.get c s.codes ≡ some stored) ⊎ IsApproval os o r out c stored
  serve-codes c stored h = elim serve-cases [
    | inl e ↦ inl (rw e at h)
    | inr (inl (hp, hm, e)) ↦ post-codes os o r out s c stored hp hm (rw e at h)
    | inr (inr (hp, e)) ↦ inl (serve_token-codes c stored (rw e at h))
  ]

  -- A token that is kept after a request was kept before it, or the request exchanges a code that
  -- was kept for it.
  pub serve-tokens :
      (t : Text) (info : TokenInfo)
      → Map.get t (serve os o r out s).0.tokens ≡ some info
      → (Map.get t s.tokens ≡ some info)
        ⊎ ((c : Text) × (stored : OauthCode) × (Map.get c s.codes ≡ some stored)
            × IsExchange os o r out c stored t info)
  serve-tokens t info h = elim serve-cases [
    | inl e ↦ inl (rw e at h)
    | inr (inl (hp, hm, e)) ↦
        inl (sym (ap (Map.get t) (ap (λ x. x.tokens) e ∙ post-tokens os o r out s)) ∙ h)
    | inr (inr (hp, e)) ↦ serve_token-tokens t info hp (rw e at h)
  ]
