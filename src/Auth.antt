-- ===== src/Auth.antt =====
-- mcpauth: the shared secret and the OAuth facade that guard an HTTP endpoint. This file has the
-- configuration and its validation, mcpauth/config.go. Durations are nanoseconds.
pub mod Oauth
pub mod Valid
pub mod Middleware
mod Samples
use gooners.Base.{
  pos, ℤ, ℕ, zero, suc, ◌+◌, ◌-◌, ◌*◌, ◌≤◌, ◌<◌, ◌≡◌, refl, sym, ap, ◌∙◌, ◌≢◌, ◌↔◌, ◌⊎◌, inl, inr,
  Bool, true, false, not, ◌&&◌, ◌||◌, Option, none, some, List, [], ◌∷◌, ◌++◌, map, arith, ltb, leb,
  nat_beq, if◌then◌else◌, Eq, ◌==◌, nat_eq, ==-self, list_beq, list_beq_iff, list_eq, Bool-cases,
  Option-cases, length, get_elem?, take, drop, keep, is_empty, get_or, is_some, or_else,
  length-append, length-keep-le, keep-append, All, All-append, contains, count, contains-append,
  contains-keep, Text, text, to_lower, has_prefix, has_infix, has_suffix, trim_prefix,
  trim_prefix-append, is_space, fields, trim_left, trim_space, cut_at, join,
}
use gooners.Base.Map
use gooners.Base.Map.{Map}

pub record OauthConfig : Type 0 where
  pub enabled : Bool
  pub issuer : Text
  pub resource : Text
  pub scopes : List Text
  pub client_id : Text
  pub token_ttl : Text
  pub redirect_uris : List Text

pub record Config : Type 0 where
  pub enabled : Bool
  pub header : Text
  pub value : Text
  pub oauth : OauthConfig

pub data Problem : Type 0 where
  header_required value_required issuer_required resource_required : Problem
  redirect_uris_required token_ttl_invalid : Problem

abbrev report : Bool → Problem → List Problem
report found p = if found then p ∷ [] else []

-- What the code takes from elsewhere: time.ParseDuration, url.ParseQuery, url.Parse with the query
-- values that are set on the result (none where the URL does not parse), sha256.Sum256, the base64
-- encoding of a sum, and the canonical form of a header's name.
pub record Platform : Type 0 where
  pub parse_duration : Text → Option ℤ
  pub parse_query : Text → Option (Map Text (List Text))
  pub set_query : Text → List (Text × Text) → Option Text
  pub sum256 : Text → List ℕ
  pub encode : List ℕ → Text
  pub canonical : Text → Text

-- The headers of a request, a form, and the values of a query.
abbrev pub Values : Type 0
Values = Map Text (List Text)

-- url.Values.Get: the first value, and the empty text where there is none.
abbrev pub first : Option (List Text) → Text
first (some (x ∷ _)) = x
first _ = []

unfoldable pub values_get : Text → Values → Text
values_get name v = first (Map.get name v)

module _ (os : Platform) where
  abbrev pub parse_optional_duration : Text → Option ℤ
  parse_optional_duration s = if is_empty s then some (pos 0) else os.parse_duration s

  unfoldable pub validate_oauth : OauthConfig → List Problem
  validate_oauth c =
      if not c.enabled
      then []
      else report (is_empty c.issuer) issuer_required
        ++ (report (is_empty c.resource) resource_required
            ++ (report (is_empty c.redirect_uris) redirect_uris_required
                ++ report (not (is_some (parse_optional_duration c.token_ttl))) token_ttl_invalid))

  -- Validate, with the problems that it joins.
  unfoldable pub validate : Config → List Problem
  unfolding validate_oauth
  validate c =
      if not c.enabled
      then []
      else report (is_empty c.header) header_required
        ++ (report (is_empty c.value) value_required ++ validate_oauth c.oauth)

  -- constantTimeEqual
  unfoldable pub constant_time_equal : Text → Text → Bool
  constant_time_equal a b = os.sum256 a == os.sum256 b
