-- ===== src/Auth/Middleware/Provenance.antt =====
-- mcpauth: the requests that reach the next handler, and where the tokens of the OAuth facade come
-- from. A history is a list of requests, the latest first.
use gooners.Base.{
  ◌≤◌, ◌≡◌, sym, ap, ◌∙◌, ◌⊎◌, inl, inr, true, Option, none, some, List, [], ◌∷◌, arith, nat_eq,
  ==-self, list_eq, Text,
}
use gooners.Base.Map
use gooners.Base.Map.{Map}
use Prim.{⊥}
use gooners.Auth.{Platform, values_get, constant_time_equal}
use gooners.Auth.Oauth.{OauthCode, TokenInfo, Settings, OauthState, Request, Outside, empty_state}
use gooners.Auth.Oauth.History.{IsApproval, IsExchange}
use gooners.Auth.Oauth.Changes.{serve-codes, serve-tokens}
use gooners.Auth.Middleware.{Bearer, Guard, passed, secret_of, strip, handle}
use gooners.Auth.Middleware.Steps.{
  seen, serve_bearer-passes, guard-passes, handle-passes, guard-state, handle-state,
  verify_access_token-finds,
}

module _ (os : Platform) (bearer : Bearer) (g : Guard) where
  -- The state after a history.
  unfoldable pub run : List (Request × Outside) → OauthState
  run [] = empty_state
  run ((r, out) ∷ past) = (handle os bearer g r out (run past)).0

  -- Some request of a history issued the code.
  abbrev pub Issued : Settings → Text → OauthCode → List (Request × Outside) → Type 0
  Issued o c stored [] = ⊥
  Issued o c stored ((r, out) ∷ past) =
      IsApproval os o r (seen g out) c stored ⊎ Issued o c stored past

  -- Some request of a history exchanged a code that an earlier one issued for the token.
  abbrev pub Granted : Settings → Text → TokenInfo → List (Request × Outside) → Type 0
  Granted o t info [] = ⊥
  Granted o t info ((r, out) ∷ past) =
      ((c : Text) × (stored : OauthCode) × IsExchange os o r (seen g out) c stored t info
        × Issued o c stored past)
      ⊎ Granted o t info past

module _ (os : Platform) (bearer : Bearer) (g : Guard) (o : Settings) (has : g.oauth ≡ some o) where
  handle-codes :
      (r : Request) (out : Outside) (s : OauthState) (c : Text) (stored : OauthCode)
      → Map.get c (handle os bearer g r out s).0.codes ≡ some stored
      → (Map.get c s.codes ≡ some stored) ⊎ IsApproval os o r (seen g out) c stored
  handle-codes r out s c stored h = elim (handle-state os bearer g r out s o has) [
    | inl e ↦ serve-codes os o r (seen g out) s c stored (rw e at h)
    | inr e ↦ elim (guard-state os bearer g r out s) [
      | inl f ↦ inl (sym (ap (λ x. Map.get c x.codes) (e ∙ f)) ∙ h)
      | inr (t, f) ↦ inl (sym (ap (λ x. Map.get c x.codes) (e ∙ f)) ∙ h)
    ]
  ]

  handle-tokens :
      (r : Request) (out : Outside) (s : OauthState) (t : Text) (info : TokenInfo)
      → Map.get t (handle os bearer g r out s).0.tokens ≡ some info
      → (Map.get t s.tokens ≡ some info)
        ⊎ ((c : Text) × (stored : OauthCode) × (Map.get c s.codes ≡ some stored)
            × IsExchange os o r (seen g out) c stored t info)
  handle-tokens r out s t info h = elim (handle-state os bearer g r out s o has) [
    | inl e ↦ serve-tokens os o r (seen g out) s t info (rw e at h)
    | inr e ↦ elim (guard-state os bearer g r out s) [
      | inl f ↦ inl (sym (ap (λ x. Map.get t x.tokens) (e ∙ f)) ∙ h)
      | inr (forgotten, f) ↦ inl (
          Map.delete-some forgotten t info s.tokens
            (sym (ap (λ x. Map.get t x.tokens) (e ∙ f)) ∙ h))
    ]
  ]

  run-Issued :
      (past : List (Request × Outside)) (c : Text) (stored : OauthCode)
      → Map.get c (run os bearer g past).codes ≡ some stored
      → Issued os bearer g o c stored past
  unfolding run Map.get
  run-Issued [] c stored h = cc
  run-Issued ((r, out) ∷ past) c stored h =
      elim (handle-codes r out (run os bearer g past) c stored h) [
        | inl old ↦ inr (run-Issued past c stored old)
        | inr made ↦ inl made
      ]

  run-Granted :
      (past : List (Request × Outside)) (t : Text) (info : TokenInfo)
      → Map.get t (run os bearer g past).tokens ≡ some info
      → Granted os bearer g o t info past
  unfolding run Map.get
  run-Granted [] t info h = cc
  run-Granted ((r, out) ∷ past) t info h =
      elim (handle-tokens r out (run os bearer g past) t info h) [
        | inl old ↦ inr (run-Granted past t info old)
        | inr (c, stored, found, made) ↦ inl (c, stored, made, run-Issued past c stored found)
      ]

-- The request lacks the header that carries the credential.
abbrev pub IsStripped : Platform → Guard → Request → Type 0
IsStripped os g r = Map.get (os.canonical g.cfg.header) r.header ≡ none

strip-IsStripped : (os : Platform) (g : Guard) (r : Request) → IsStripped os g (strip os g r)
unfolding strip
strip-IsStripped os g r = ground (
  arith,
  Map.get-delete (os.canonical g.cfg.header) (os.canonical g.cfg.header) r.header,
  ==-self (os.canonical g.cfg.header),
)

module _ (os : Platform) (bearer : Bearer) (g : Guard) where
  -- A request that reaches the next handler after any history has lost the header of the credential.
  -- It comes without a token's info where its credential and the secret have the same sum. It comes
  -- with the info of a token where the facade is enabled, an earlier request exchanged a code for the
  -- token, that code's address matched and its challenge was answered before it expired, a request
  -- before that one issued the code to a listed address for a form with the secret, and the token has
  -- not expired.
  pub handle-provenance :
      (past : List (Request × Outside)) (r r' : Request) (out : Outside) (info : Option TokenInfo)
      → (handle os bearer g r out (run os bearer g past)).1 ≡ passed r' info
      → IsStripped os g r'
        × (((info ≡ none)
              × ((expected : Text) × (secret_of g out ≡ some expected)
                  × (constant_time_equal os
                        (values_get (os.canonical g.cfg.header) r.header)
                        expected
                      ≡ true)))
            ⊎ ((o : Settings) × (t : Text) × (i : TokenInfo) × (g.oauth ≡ some o)
                × (bearer.token r.header ≡ inr t)
                × (info ≡ some i)
                × Granted os bearer g o t i past
                × (out.now ≤ i.expiration)))
  handle-provenance past r r' out info h =
      elim (guard-passes os bearer g r out (run os bearer g past) r' info
        (handle-passes os bearer g r out (run os bearer g past) r' info h)) [
          | inl (same, bare, proof) ↦ (rw same (strip-IsStripped os g r), inl (bare, proof))
          | inr (o, has, b) ↦
              let p = serve_bearer-passes os bearer g r out (run os bearer g past) r' info b in
              let found = verify_access_token-finds out.now p.0 (run os bearer g past) p.1 p.5 in
              (
                rw p.3 (strip-IsStripped os g r),
                inr (
                  o,
                  p.0,
                  p.1,
                  has,
                  p.2,
                  p.4,
                  run-Granted os bearer g o has past p.0 p.1 found.0,
                  found.1,
                ),
              )
        ]
