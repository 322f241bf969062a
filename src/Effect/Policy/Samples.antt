-- ===== src/Effect/Policy/Samples.antt =====
-- A Grafana behind a name, which redirects to the metadata service.
use gooners.Base.{
  cut_at, ◌≡◌, refl, ◌↔◌, true, false, Option, none, some, List, [], ◌∷◌, if◌then◌else◌, ◌==◌,
  nat_eq, list_eq, take, All, contains, Text, text, to_lower,
}
use gooners.Effect.Policy.{
  HttpPolicy, Url, Ip, v4, link_local, host_not_allowed, Hop, allows_host, check_url, check_dial,
  follow, allow_host_of, trim_dot,
}
use gooners.Effect.Policy.Hosts.{Covers, allows_host-Covers}
use gooners.Effect.Policy.Egress.{IsAllowed, follow-IsAllowed, allow_host_of-follow}

-- An IP parser that knows two addresses.
abbrev parse_ip : Text → Option Ip
parse_ip s =
    if s == text "10.0.0.1"
    then some (v4 10 0 0 1)
    else if s == text "169.254.169.254"
    then some (v4 169 254 169 254)
    else none

-- The host in front of the first colon, as IPv4 addresses have it.
abbrev split_port : Text → Option Text
split_port s = elim (cut_at b':' s) [ none ↦ none | some (host, port) ↦ some host ]

abbrev grafana : Url
grafana = record {
  scheme = text "http";
  host = text "Grafana.internal:3000";
  hostname = text "Grafana.internal";
}

abbrev dotted : Url
dotted = record { scheme = text "http"; host = text "grafana."; hostname = text "grafana." }

abbrev metadata : Url
metadata = record {
  scheme = text "http";
  host = text "169.254.169.254";
  hostname = text "169.254.169.254";
}

abbrev parse_url : Text → Option Url
parse_url s = if s == text "g" then some grafana else if s == text "d" then some dotted else none

abbrev policy : HttpPolicy
policy = record { allow_hosts = text "grafana.internal:3000" ∷ []; allow_link_local = false }

abbrev hops : List Hop
hops =
    record { url = grafana; address = text "10.0.0.1:3000" }
    ∷ (record { url = metadata; address = text "169.254.169.254:80" } ∷ [])

allows_host-Covers_example :
    (allows_host policy (text "grafana.internal") (text "grafana.internal:3000") ≡ true) ↔ (
      (allow : Text) × (contains policy.allow_hosts allow ≡ true)
      × Covers
          (to_lower (trim_dot (text "grafana.internal")))
          (to_lower (text "grafana.internal:3000"))
          (to_lower allow))
allows_host-Covers_example =
    allows_host-Covers policy (text "grafana.internal") (text "grafana.internal:3000")

follow-IsAllowed_example :
    All (IsAllowed split_port parse_ip policy) (follow split_port parse_ip policy hops).0
follow-IsAllowed_example = follow-IsAllowed split_port parse_ip policy hops

allow_host_of-follow_example :
    follow split_port parse_ip
      (record { allow_hosts = allow_host_of parse_url (text "g"); allow_link_local = false })
      (record { url = grafana; address = text "10.0.0.1:3000" } ∷ [])
    ≡ (record { url = grafana; address = text "10.0.0.1:3000" } ∷ [], none)
unfolding cut_at
allow_host_of-follow_example =
    allow_host_of-follow split_port parse_ip parse_url (text "g") grafana false
      (text "10.0.0.1:3000") (text "10.0.0.1") (v4 10 0 0 1) refl refl refl refl refl refl refl refl
      refl refl

-- The first request is sent, and the redirect is denied.
redirect_denied : follow split_port parse_ip policy hops ≡ (take 1 hops, some host_not_allowed)
unfolding follow cut_at
redirect_denied = refl

-- An allowed name that resolves to the metadata service is not connected.
rebinding_denied :
    check_dial split_port parse_ip policy (text "169.254.169.254:80") ≡ some link_local
unfolding check_dial cut_at
rebinding_denied = refl

-- An entry with a last dot covers nothing, not even the host that it was taken from.
dotted_denied :
    check_url parse_ip
      (record { allow_hosts = allow_host_of parse_url (text "d"); allow_link_local = false })
      (some dotted)
    ≡ some host_not_allowed
unfolding check_url allow_host_of
dotted_denied = refl
