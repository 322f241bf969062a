-- ===== src/Effect/Policy/Egress.antt =====
-- internal/effect/http.go: what a client reaches through its policy, redirects included.
use gooners.Base.{
  refl, ◌≡◌, inl, inr, Bool, true, false, not, ◌||◌, Option, none, some, List, [], ◌∷◌, arith, ◌==◌,
  nat_eq, ==-self, list_eq, Option-cases, is_empty, or_else, All, contains, Text, text, to_lower,
  has_prefix,
}
use gooners.Effect.Policy.{
  HttpPolicy, Url, Ip, Hop, allows_host, check_url, check_ip, check_dial, round_trip, follow,
  exchanged, is_http, is_link_local_unicast, is_link_local_multicast, allow_host_of, entry_allows,
  trim_dot,
}
use gooners.Effect.Policy.Hosts.{Covers, allows_host-Covers}

-- An address outside the link-local ranges, or a policy that permits these.
abbrev pub is_reachable : HttpPolicy → Ip → Bool
is_reachable p ip =
    p.allow_link_local || not (is_link_local_unicast ip || is_link_local_multicast ip)

check_ip-none : (p : HttpPolicy) (ip : Ip) → check_ip p ip ≡ none → is_reachable p ip ≡ true
unfolding check_ip
check_ip-none p ip h = ground arith

module _ (split_host_port : Text → Option Text) (parse_ip : Text → Option Ip) where
  -- What makes an exchange allowed: the URL's scheme, its host on the allowlist, the address that its
  -- name was resolved to, and the address that it is written as where it is written as one.
  pub record IsAllowed (p : HttpPolicy) (h : Hop) : Type 0 where
    pub http_only : is_http h.url.scheme ≡ true
    pub has_host : is_empty h.url.hostname ≡ false
    pub listed :
        (allow : Text) × (contains p.allow_hosts allow ≡ true)
        × Covers (to_lower (trim_dot h.url.hostname)) (to_lower h.url.host) (to_lower allow)
    pub resolved :
        (host : Text) × (ip : Ip) × (split_host_port h.address ≡ some host)
        × (parse_ip host ≡ some ip)
        × (is_reachable p ip ≡ true)
    pub literal : (ip : Ip) → parse_ip h.url.hostname ≡ some ip → is_reachable p ip ≡ true

  check_dial-none :
      (p : HttpPolicy) (address : Text)
      → check_dial split_host_port parse_ip p address ≡ none
      → (host : Text) × (ip : Ip) × (split_host_port address ≡ some host)
        × (parse_ip host ≡ some ip)
        × (is_reachable p ip ≡ true)
  unfolding check_dial
  check_dial-none p address h = elim (Option-cases (split_host_port address)) [
    | inl s ↦ ground (arith, h, s)
    | inr (host, s) ↦ elim (Option-cases (parse_ip host)) [
      | inl e ↦ ground (arith, h, s, e)
      | inr (ip, e) ↦ (host, ip, s, e, check_ip-none p ip (ground (arith, h, s, e)))
    ]
  ]

  round_trip-IsAllowed :
      (p : HttpPolicy) (h : Hop) → round_trip split_host_port parse_ip p h ≡ none → IsAllowed p h
  unfolding round_trip
  round_trip-IsAllowed p h e = record {
    http_only = ground arith;
    has_host = ground arith;
    listed = (allows_host-Covers p h.url.hostname h.url.host).0 (ground arith);
    resolved = check_dial-none p h.address (ground arith);
    literal = λ ip q. check_ip-none p ip (ground arith);
  }

  -- Whatever the servers answer, each request that the client sends, its own and those that redirects
  -- ask for, goes by http or https to a host that the allowlist covers, and connects to an address
  -- that is not link-local unless the policy permits that, however the name was resolved.
  pub follow-IsAllowed :
      (p : HttpPolicy) (hops : List Hop)
      → All (IsAllowed p) (follow split_host_port parse_ip p hops).0
  unfolding follow
  follow-IsAllowed p [] = tt
  follow-IsAllowed p (h ∷ hops) =
      elim (Option-cases
        (or_else (check_url parse_ip p (some h.url)) (round_trip split_host_port parse_ip p h))) [
          | inl e ↦
              rw (follow, e, exchanged)
                (round_trip-IsAllowed p h (ground (arith, e)), follow-IsAllowed p hops)
          | inr (d, e) ↦ rw (follow, e, exchanged) tt
        ]

own_entry-allows_host :
    (u : Url) (link_local : Bool)
    → has_prefix (to_lower u.host) (text "*.") ≡ false
    → (contains (to_lower u.host) b':' || to_lower u.host == to_lower (trim_dot u.hostname)) ≡ true
    → allows_host
        (record { allow_hosts = u.host ∷ []; allow_link_local = link_local })
        u.hostname
        u.host
      ≡ true
unfolding allows_host entry_allows
own_entry-allows_host u link_local star own = ground (arith, ==-self (to_lower u.host))

allow_host_of-check_url :
    (parse_ip : Text → Option Ip) (parse_url : Text → Option Url) (raw_url : Text) (u : Url)
    (link_local : Bool)
    → is_empty raw_url ≡ false
    → parse_url raw_url ≡ some u
    → is_http u.scheme ≡ true
    → is_empty u.hostname ≡ false
    → has_prefix (to_lower u.host) (text "*.") ≡ false
    → (contains (to_lower u.host) b':' || to_lower u.host == to_lower (trim_dot u.hostname)) ≡ true
    → parse_ip u.hostname ≡ none
    → check_url parse_ip
        (record { allow_hosts = allow_host_of parse_url raw_url; allow_link_local = link_local })
        (some u)
      ≡ none
unfolding check_url
allow_host_of-check_url parse_ip parse_url raw_url u l ne pu sch hn star own ip =
    let listed : allow_host_of parse_url raw_url ≡ u.host ∷ [] =
      unfold allow_host_of in ground arith in
    ground (arith, listed, own_entry-allows_host u l star own)

check_dial-reachable :
    (split_host_port : Text → Option Text) (parse_ip : Text → Option Ip) (p : HttpPolicy)
    (address host : Text) (ip : Ip)
    → split_host_port address ≡ some host
    → parse_ip host ≡ some ip
    → is_reachable p ip ≡ true
    → check_dial split_host_port parse_ip p address ≡ none
unfolding check_dial check_ip
check_dial-reachable split_host_port parse_ip p address host ip s e r = ground (arith, s, e, r)

-- A client whose allowlist is the host of its own URL sends a request to that URL, where the URL is by
-- http or https, is written with a port or without a last dot, is no wildcard and names no address, and
-- where the dialer connects to an address that is not link-local, or the policy permits these.
pub allow_host_of-follow :
    (split_host_port : Text → Option Text) (parse_ip : Text → Option Ip)
    (parse_url : Text → Option Url) (raw_url : Text) (u : Url) (link_local : Bool)
    (address host : Text) (ip : Ip)
    → is_empty raw_url ≡ false
    → parse_url raw_url ≡ some u
    → is_http u.scheme ≡ true
    → is_empty u.hostname ≡ false
    → has_prefix (to_lower u.host) (text "*.") ≡ false
    → (contains (to_lower u.host) b':' || to_lower u.host == to_lower (trim_dot u.hostname)) ≡ true
    → parse_ip u.hostname ≡ none
    → split_host_port address ≡ some host
    → parse_ip host ≡ some ip
    → (link_local || not (is_link_local_unicast ip || is_link_local_multicast ip)) ≡ true
    → let p : HttpPolicy = record {
      allow_hosts = allow_host_of parse_url raw_url;
      allow_link_local = link_local;
    } in
      let h : Hop = record { url = u; address = address } in
      follow split_host_port parse_ip p (h ∷ []) ≡ (h ∷ [], none)
unfolding follow round_trip
allow_host_of-follow split_host_port parse_ip parse_url raw_url u l address host ip ne pu sch hn
      star own no_ip sp addr reach =
    let p : HttpPolicy = record {
      allow_hosts = allow_host_of parse_url raw_url;
      allow_link_local = l;
    } in
    let checked : check_url parse_ip p (some u) ≡ none =
      allow_host_of-check_url parse_ip parse_url raw_url u l ne pu sch hn star own no_ip in
    let dialed : check_dial split_host_port parse_ip p address ≡ none =
      check_dial-reachable split_host_port parse_ip p address host ip sp addr reach in
    rw (checked, dialed, exchanged) refl
