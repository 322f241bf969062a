-- ===== src/Auth/Valid.antt =====
-- mcpauth/config.go: what a configuration without a problem has.
use gooners.Base.{◌≡◌, ◌↔◌, ◌⊎◌, true, false, [], arith, nat_eq, list_eq, is_empty, is_some}
use gooners.Auth.{Config, OauthConfig, Platform, parse_optional_duration, validate, validate_oauth}

module _ (os : Platform) where
  abbrev pub IsCompleteOauth : OauthConfig → Type 0
  IsCompleteOauth c =
      (c.enabled ≡ false)
      ⊎ ((is_empty c.issuer ≡ false)
          × (is_empty c.resource ≡ false)
          × (is_empty c.redirect_uris ≡ false)
          × (is_some (parse_optional_duration os c.token_ttl) ≡ true))

  abbrev pub IsComplete : Config → Type 0
  IsComplete c =
      (c.enabled ≡ false)
      ⊎ ((is_empty c.header ≡ false) × (is_empty c.value ≡ false) × IsCompleteOauth c.oauth)

  validate_oauth-none_iff : (c : OauthConfig) → (validate_oauth os c ≡ []) ↔ IsCompleteOauth c
  unfolding validate_oauth
  validate_oauth-none_iff c = ground arith

  -- Validate reports nothing just when the configuration is switched off, or has a header and a value,
  -- and its OAuth part is switched off too, or has an issuer, a resource, an address to redirect to and
  -- a time to live that is empty or can be parsed.
  pub validate-none_iff : (c : Config) → (validate os c ≡ []) ↔ IsComplete c
  unfolding validate
  validate-none_iff c = ground (arith, validate_oauth-none_iff c.oauth)
