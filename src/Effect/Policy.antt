-- ===== src/Effect/Policy.antt =====
-- internal/effect/http_policy.go and http.go: which HTTP destinations a client may reach. Hosts are
-- ASCII, and net.ParseIP, net.SplitHostPort and url.Parse are parameters.
pub mod Hosts
pub mod Egress
mod Samples
use gooners.Base.{
  ℕ, zero, suc, ◌+◌, ◌-◌, ◌*◌, ◌≤◌, ◌<◌, ◌≡◌, refl, sym, ap, ◌∙◌, ◌≢◌, ◌↔◌, ◌⊎◌, inl, inr, Bool,
  true, false, not, ◌&&◌, ◌||◌, Option, none, some, List, [], ◌∷◌, ◌++◌, map, arith, ltb, leb,
  nat_beq, if◌then◌else◌, Eq, ◌==◌, nat_eq, ==-self, list_beq, list_beq_iff, list_eq, Bool-cases,
  Option-cases, length, get_elem?, take, drop, keep, is_empty, get_or, is_some, or_else,
  length-append, length-keep-le, keep-append, All, All-append, contains, count, contains-append,
  contains-keep, Text, text, to_lower, has_prefix, has_infix, has_suffix, trim_prefix,
  trim_prefix-append,
}
use gooners.Base.Map
use gooners.Base.Map.{Map}
use Prim.Native.Nat.{◌%◌}

-- Why a destination is denied.
pub data Denied : Type 0 where
  no_url scheme_not_allowed no_host host_not_allowed link_local not_an_ip : Denied
  -- the error of net.SplitHostPort
  bad_address : Denied

pub record HttpPolicy : Type 0 where
  pub allow_hosts : List Text
  pub allow_link_local : Bool

-- A URL: its scheme, its Host, and what Hostname() gives for it.
pub record Url : Type 0 where
  pub scheme : Text
  pub host : Text
  pub hostname : Text

-- net.IP: one that To4 takes for an IPv4 address, or the bytes of an IPv6 address.
pub data Ip : Type 0 where
  v4 : ℕ → ℕ → ℕ → ℕ → Ip
  v6 : List ℕ → Ip

-- IsLinkLocalUnicast: 169.254.0.0/16 and fe80::/10
abbrev pub is_link_local_unicast : Ip → Bool
is_link_local_unicast (v4 a b c d) = a == 169 && b == 254
is_link_local_unicast (v6 (a ∷ b ∷ rest)) = a == 254 && (leb 128 b && ltb b 192)
is_link_local_unicast (v6 _) = false

-- IsLinkLocalMulticast: 224.0.0.0/24 and ff02::/16 with any flags
abbrev pub is_link_local_multicast : Ip → Bool
is_link_local_multicast (v4 a b c d) = a == 224 && (b == 0 && c == 0)
is_link_local_multicast (v6 (a ∷ b ∷ rest)) = a == 255 && b % 16 == 2
is_link_local_multicast (v6 _) = false

unfoldable pub check_ip : HttpPolicy → Ip → Option Denied
check_ip p ip =
    if p.allow_link_local
    then none
    else if is_link_local_unicast ip || is_link_local_multicast ip
    then some link_local
    else none

-- strings.TrimSuffix(host, ".")
abbrev pub trim_dot : Text → Text
trim_dot [] = []
trim_dot (c ∷ s) = if is_empty s && c == b'.' then [] else c ∷ trim_dot s

-- One round of the loop of allowsHost, whose switch takes the first case that holds.
unfoldable pub entry_allows : Text → Text → Text → Bool
entry_allows host host_port allow =
    if allow == text "*"
    then true
    else if has_prefix allow (text "*.")
    then has_suffix host (drop 1 allow)
    else if contains allow b':'
    then allow == host_port || allow == host
    else allow == host

abbrev pub any_entry : Text → Text → List Text → Bool
any_entry host host_port [] = false
any_entry host host_port (allow ∷ entries) =
    if entry_allows host host_port (to_lower allow) then true else any_entry host host_port entries

unfoldable pub allows_host : HttpPolicy → Text → Text → Bool
unfolding entry_allows
allows_host p host host_port =
    any_entry (to_lower (trim_dot host)) (to_lower host_port) p.allow_hosts

abbrev pub is_http : Text → Bool
is_http scheme = scheme == text "http" || scheme == text "https"

-- One exchange of the client: the URL, and the address that the dialer is about to connect to.
pub record Hop : Type 0 where
  pub url : Url
  pub address : Text

-- An exchange that is denied ends the request; one that is made comes before the rest of it.
unfoldable pub exchanged : Option Denied → Hop → List Hop × Option Denied → List Hop × Option Denied
exchanged none h (sent, e) = (h ∷ sent, e)
exchanged (some denied) h (sent, e) = ([], some denied)

module _ (parse_ip : Text → Option Ip) where
  unfoldable pub check_url : HttpPolicy → Option Url → Option Denied
  unfolding allows_host check_ip
  check_url p none = some no_url
  check_url p (some u) =
      if not (is_http u.scheme)
      then some scheme_not_allowed
      else if is_empty u.hostname
      then some no_host
      else if not (allows_host p u.hostname u.host)
      then some host_not_allowed
      else elim (parse_ip u.hostname) [ none ↦ none | some ip ↦ check_ip p ip ]

-- `split_host_port` gives the host of net.SplitHostPort.
module _ (split_host_port : Text → Option Text) (parse_ip : Text → Option Ip) where
  -- policyDialer's Control
  unfoldable pub check_dial : HttpPolicy → Text → Option Denied
  unfolding check_ip
  check_dial p address = elim (split_host_port address) [
    | none ↦ some bad_address
    | some host ↦ elim (parse_ip host) [ none ↦ some not_an_ip | some ip ↦ check_ip p ip ]
  ]

  -- RoundTrip of policyTransport, up to the connection.
  unfoldable pub round_trip : HttpPolicy → Hop → Option Denied
  unfolding check_url check_dial
  round_trip p h = or_else (check_url parse_ip p (some h.url)) (check_dial p h.address)

  -- The client on the requests that the servers ask it to follow: those that were connected, and the
  -- error that ended it. CheckRedirect vets a redirect before it is sent.
  unfoldable pub follow : HttpPolicy → List Hop → List Hop × Option Denied
  unfolding check_url round_trip exchanged
  follow p [] = ([], none)
  follow p (h ∷ hops) =
      exchanged (or_else (check_url parse_ip p (some h.url)) (round_trip p h)) h (follow p hops)

unfoldable pub allow_host_of : (Text → Option Url) → Text → List Text
allow_host_of parse_url raw_url = if is_empty raw_url then [] else elim (parse_url raw_url) [
  | none ↦ []
  | some u ↦ if is_empty u.hostname then [] else u.host ∷ []
]
