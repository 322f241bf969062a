-- ===== src/Gateway/Config/Samples.antt =====
-- internal/gateway/config.go: one upstream over stdio with a secret in its environment, and variants.
use gooners.Gateway.Config.Checks.{
  joined_auth, joined_upstream, joined_upstreams, validate_blob, validate_reconnect_config,
  validate_scope_configs, check_upstream, check_upstreams, validate_config,
}
use gooners.Gateway.Config.Accepted.{validate_config-IsUsable, IsUsable}
use gooners.Gateway.Secrets.Refs.{
  extract_secret_refs, is_valid_secret_name, name_in, parse_secret_ref, extract_from,
}
use gooners.Gateway.Router.{new_router, add, lookup}
use gooners.Gateway.Config.{
  auth_secret_undefined, secret_undefined, undefined_refs, check_secrets, validate_backend,
  validate_mounts, validate_route_config, check_kind, UpstreamEntry, validate_route_collisions,
  GatewayConfig,
}
use gooners.Base.{
  pos, ℕ, ◌≡◌, refl, Bool, true, false, not, none, some, List, [], ◌∷◌, if◌then◌else◌, ◌==◌, nat_eq,
  list_eq, Text, text, has_infix, cut_at,
}
use gooners.Base.Map
use gooners.Base.Map.{Map}
use gooners.Auth.{validate, Config, Platform}
use gooners.Gateway.Secrets.{SecretConfig}

abbrev os : Platform
os = record {
  parse_duration = λ s. if s == text "1s" then some (pos 1000000000) else none;
  parse_query = λ s. none;
  set_query = λ u vs. none;
  sum256 = λ s. s;
  encode = λ s. s;
  canonical = λ s. s;
}

abbrev plain : Text → Bool
plain s = not (has_infix s (text "["))

abbrev no_auth : Config
no_auth = record {
  enabled = true;
  header = text "A";
  value = text "{secret:k}";
  oauth = record {
    enabled = false;
    issuer = [];
    resource = [];
    scopes = [];
    client_id = [];
    token_ttl = [];
    redirect_uris = [];
  };
}

abbrev upstream : Text → Text → UpstreamEntry
upstream name host = record {
  name = name;
  kind = text "stdio";
  command = text "run" ∷ [];
  url = [];
  headers = [];
  strip_headers = [];
  env = (text "E", text "{secret:k}") ∷ [];
  scopes = record { name = text "s"; match = text "*" ∷ [] } ∷ [];
  route = record { host = host; path = [] };
  reconnect = none;
  call_timeout = text "1s";
  redact = none;
}

abbrev secret : SecretConfig
secret = record {
  name = text "k";
  source = record { value = text "v"; env = []; file = []; command = [] };
}

abbrev config : List UpstreamEntry → List SecretConfig → GatewayConfig
config upstreams secrets = record {
  drain_timeout = [];
  upstreams = upstreams;
  secrets = secrets;
  auth = no_auth;
  redact = record { enabled = false; patterns = [] };
  blob = record {
    addr = text "a";
    base_url = [];
    dir = [];
    ttl = [];
    endpoint = [];
    bucket = [];
    mounts = record { name = text "m"; dir = text "/d"; prefix = [] } ∷ [];
  };
}

abbrev good : GatewayConfig
good = config (upstream (text "a") (text "h") ∷ (upstream (text "b") [] ∷ [])) (secret ∷ [])

validate_config-IsUsable_example : IsUsable os good
unfolding validate_config check_upstreams check_upstream check_kind validate_route_config
    validate_scope_configs validate_route_collisions validate_reconnect_config validate_blob
    validate_mounts validate_backend check_secrets joined_upstreams joined_upstream undefined_refs
    joined_auth extract_secret_refs extract_from parse_secret_ref name_in cut_at
    is_valid_secret_name validate
validate_config-IsUsable_example = validate_config-IsUsable os plain plain good refl

-- The references without a secret are joined.
missing_secret :
    validate_config os plain plain (config (upstream (text "a") [] ∷ []) [])
    ≡ secret_undefined (text "a") (text "k") ∷ (auth_secret_undefined (text "k") ∷ [])
unfolding validate_config check_upstreams check_upstream check_kind validate_route_config
    validate_scope_configs validate_route_collisions validate_reconnect_config validate_blob
    validate_mounts validate_backend check_secrets joined_upstreams joined_upstream undefined_refs
    joined_auth extract_secret_refs extract_from parse_secret_ref name_in cut_at
    is_valid_secret_name validate
missing_secret = refl

-- The same route in another case is not found to be the same.
same_host_passes :
    validate_route_collisions []
      (upstream (text "a") (text "h.org") ∷ (upstream (text "b") (text "H.org") ∷ []))
    ≡ []
unfolding validate_route_collisions
same_host_passes = refl

-- In the router the later upstream's route stands in place of the earlier one's.
same_host_replaced :
    lookup {A = ℕ}
      (add (add new_router (text "h.org") [] 1) (text "H.org") [] 2)
      (text "h.org")
      (text "/")
    ≡ some 2
unfolding lookup add new_router Map.get Map.put
same_host_replaced = refl
