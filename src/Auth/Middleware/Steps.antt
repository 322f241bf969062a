-- ===== src/Auth/Middleware/Steps.antt =====
-- mcpauth/auth.go: how one request that goes through the handler changes the codes and the tokens.
use gooners.Base.{
  ℕ, ◌≤◌, ◌≡◌, ◌∙◌, ◌⊎◌, inl, inr, true, Option, none, some, arith, nat_eq, list_eq, Sum-cases,
  Option-cases, Text,
}
use gooners.Base.Map
use gooners.Base.Map.{Map}
use gooners.Auth.{Platform, values_get, constant_time_equal}
use gooners.Auth.Oauth.{TokenInfo, Settings, OauthState, Request, Outside}
use gooners.Auth.Oauth.Token.{verify_access_token}
use gooners.Auth.Oauth.Serve.{serve}
use gooners.Auth.Middleware.{Bearer, Guard, passed, secret_of, strip, serve_bearer, guard, handle}

abbrev pub seen : Guard → Outside → Outside
seen g out = record out { secret = secret_of g out }

-- The check of a token may forget that token, and changes nothing else.
verify_access_token-state :
    (now : ℕ) (token : Text) (s : OauthState)
    → ((verify_access_token now token s).0 ≡ s)
      ⊎ ((verify_access_token now token s).0 ≡ record s { tokens = Map.delete token s.tokens })
unfolding verify_access_token
verify_access_token-state now token s = ground (arith, Option-cases (Map.get token s.tokens))

pub verify_access_token-finds :
    (now : ℕ) (token : Text) (s : OauthState) (info : TokenInfo)
    → (verify_access_token now token s).1 ≡ some info
    → (Map.get token s.tokens ≡ some info) × (now ≤ info.expiration)
unfolding verify_access_token
verify_access_token-finds now token s info h = ground (arith, Option-cases (Map.get token s.tokens))

module _ (os : Platform) (bearer : Bearer) (g : Guard) (r : Request) (out : Outside)
    (s : OauthState) where
  serve_bearer-state :
      ((serve_bearer os bearer g r out s).0 ≡ s)
      ⊎ ((t : Text) × ((serve_bearer os bearer g r out s).0 ≡ (verify_access_token out.now t s).0))
  unfolding serve_bearer
  serve_bearer-state = ground (arith, Sum-cases (bearer.token r.header))

  guard-cases :
      ((guard os bearer g r out s).0 ≡ s)
      ⊎ ((guard os bearer g r out s).0 ≡ (serve_bearer os bearer g r out s).0)
  unfolding guard
  guard-cases = ground arith

  pub guard-state :
      ((guard os bearer g r out s).0 ≡ s)
      ⊎ ((t : Text) × ((guard os bearer g r out s).0 ≡ record s { tokens = Map.delete t s.tokens }))
  guard-state = elim guard-cases [
    | inl e ↦ inl e
    | inr e ↦ elim serve_bearer-state [
      | inl f ↦ inl (e ∙ f)
      | inr (t, f) ↦ elim (verify_access_token-state out.now t s) [
        | inl v ↦ inl (e ∙ (f ∙ v))
        | inr v ↦ inr (t, e ∙ (f ∙ v))
      ]
    ]
  ]

  pub handle-state :
      (o : Settings)
      → g.oauth ≡ some o
      → ((handle os bearer g r out s).0 ≡ (serve os o r (seen g out) s).0)
        ⊎ ((handle os bearer g r out s).0 ≡ (guard os bearer g r out s).0)
  unfolding handle
  handle-state o h = ground arith

  pub serve_bearer-passes :
      (r' : Request) (info : Option TokenInfo)
      → (serve_bearer os bearer g r out s).1 ≡ passed r' info
      → (t : Text) × (i : TokenInfo) × (bearer.token r.header ≡ inr t)
        × (r' ≡ strip os g r)
        × (info ≡ some i)
        × ((verify_access_token out.now t s).1 ≡ some i)
  unfolding serve_bearer
  serve_bearer-passes r' info h = ground (arith, Sum-cases (bearer.token r.header))

  pub guard-passes :
      (r' : Request) (info : Option TokenInfo)
      → (guard os bearer g r out s).1 ≡ passed r' info
      → ((r' ≡ strip os g r)
          × (info ≡ none)
          × ((expected : Text) × (secret_of g out ≡ some expected)
              × (constant_time_equal os (values_get (os.canonical g.cfg.header) r.header) expected
                  ≡ true)))
        ⊎ ((o : Settings) × (g.oauth ≡ some o)
            × ((serve_bearer os bearer g r out s).1 ≡ passed r' info))
  unfolding guard
  guard-passes r' info h = ground (arith, Option-cases (secret_of g out), Option-cases g.oauth)

  pub handle-passes :
      (r' : Request) (info : Option TokenInfo)
      → (handle os bearer g r out s).1 ≡ passed r' info
      → (guard os bearer g r out s).1 ≡ passed r' info
  unfolding handle
  handle-passes r' info h = ground (arith, Option-cases g.oauth)
