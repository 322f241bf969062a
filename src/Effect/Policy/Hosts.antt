-- ===== src/Effect/Policy/Hosts.antt =====
-- allowsHost of internal/effect/http_policy.go, and what an entry covers apart from its loop.
use gooners.Base.{
  ◌≡◌, refl, sym, ap, ◌∙◌, ◌↔◌, inl, inr, true, false, List, [], ◌∷◌, ◌++◌, arith, ◌==◌, nat_eq,
  ==-self, list_beq_iff, list_eq, Bool-cases, contains, Text, text, to_lower, has_prefix,
  has_suffix,
}
use mathlib.Core.Path.{ap₂}
use mathlib.Core.List.{reverse, reverse-append, reverse-reverse}
use gooners.Effect.Policy.{HttpPolicy, entry_allows, any_entry, allows_host, trim_dot}

-- What a lowered entry covers.
pub data Covers (host host_port allow : Text) : Type 0 where
  any_host : allow ≡ text "*" → Covers host host_port allow
  subdomain :
      (before domain : Text)
      → allow ≡ b'*' ∷ (b'.' ∷ domain)
      → host ≡ before ++ (b'.' ∷ domain)
      → Covers host host_port allow
  authority :
      contains allow b':' ≡ true
      → has_prefix allow (text "*.") ≡ false
      → allow ≡ host_port
      → Covers host host_port allow
  same_host : has_prefix allow (text "*.") ≡ false → allow ≡ host → Covers host host_port allow

has_prefix-split : (s p : Text) → has_prefix s p ≡ true → (rest : Text) × (s ≡ p ++ rest)
has_prefix-split s [] h = (s, refl)
has_prefix-split [] (c ∷ p) h = cc
has_prefix-split (d ∷ s) (c ∷ p) h =
    let both : (d == c ≡ true) × (has_prefix s p ≡ true) = ground arith in
    let (rest, e) = has_prefix-split s p both.1 in
    (rest, ap₂ ◌∷◌ ((nat_eq.same_iff d c).0 both.0) e)

has_prefix-append : (p rest : Text) → has_prefix (p ++ rest) p ≡ true
has_prefix-append [] rest = refl
has_prefix-append (c ∷ p) rest = ground (arith, has_prefix-append p rest)

has_suffix-split : (s p : Text) → has_suffix s p ≡ true → (before : Text) × (s ≡ before ++ p)
has_suffix-split s p h =
    let (rest, e) = has_prefix-split (reverse s) (reverse p) h in
    (
      reverse rest,
      sym (reverse-reverse s)
          ∙ ap reverse e
          ∙ reverse-append (reverse p) rest
          ∙ ap (λ q. reverse rest ++ q) (reverse-reverse p),
    )

has_suffix-append : (before p : Text) → has_suffix (before ++ p) p ≡ true
has_suffix-append before p =
    rw (reverse-append before p) (has_prefix-append (reverse p) (reverse before))

subdomain-suffix :
    (host host_port allow domain : Text)
    → allow ≡ b'*' ∷ (b'.' ∷ domain)
    → entry_allows host host_port allow ≡ true
    → has_suffix host (b'.' ∷ domain) ≡ true
unfolding entry_allows
subdomain-suffix host host_port allow domain p h = rw p at h

entry_allows-Covers :
    (host host_port allow : Text)
    → entry_allows host host_port allow ≡ true
    → Covers host host_port allow
unfolding entry_allows
entry_allows-Covers host host_port allow h = elim (Bool-cases (allow == text "*")) [
  | inl e ↦ any_host ((list_beq_iff allow (text "*")).0 e)
  | inr e ↦ elim (Bool-cases (has_prefix allow (text "*."))) [
    | inl q ↦
        let (domain, p) = has_prefix-split allow (text "*.") q in
        let tail : has_suffix host (b'.' ∷ domain) ≡ true =
          subdomain-suffix host host_port allow domain p h in
        let (before, r) = has_suffix-split host (b'.' ∷ domain) tail in subdomain before domain p r
    | inr q ↦ elim (Bool-cases (allow == host)) [
      | inl r ↦ same_host q ((list_beq_iff allow host).0 r)
      | inr r ↦ authority (ground arith) q ((list_beq_iff allow host_port).0 (ground arith))
    ]
  ]
]

Covers-entry_allows :
    (host host_port allow : Text)
    → Covers host host_port allow
    → entry_allows host host_port allow ≡ true
unfolding entry_allows
Covers-entry_allows host host_port allow (any_host e) = rw e
Covers-entry_allows host host_port allow (subdomain before domain e h) =
    rw (e, h) (has_suffix-append before (b'.' ∷ domain))
Covers-entry_allows host host_port allow (authority c n e) =
    ground (arith, c, n, list_beq_iff allow host_port)
Covers-entry_allows host host_port allow (same_host n e) =
    ground (arith, n, list_beq_iff allow host)

any_entry-Covers :
    (host host_port : Text) (entries : List Text)
    → any_entry host host_port entries ≡ true
    → (allow : Text) × (contains entries allow ≡ true) × Covers host host_port (to_lower allow)
any_entry-Covers host host_port [] h = cc
any_entry-Covers host host_port (a ∷ entries) h =
    elim (Bool-cases (entry_allows host host_port (to_lower a))) [
      | inl e ↦ (a, ground (arith, ==-self a), entry_allows-Covers host host_port (to_lower a) e)
      | inr e ↦
          let (b, i, c) = any_entry-Covers host host_port entries (ground arith) in
          (b, ground arith, c)
    ]

Covers-any_entry :
    (host host_port allow : Text) (entries : List Text)
    → contains entries allow ≡ true
    → Covers host host_port (to_lower allow)
    → any_entry host host_port entries ≡ true
Covers-any_entry host host_port allow [] i c = cc
Covers-any_entry host host_port allow (a ∷ entries) i c = elim (Bool-cases (a == allow)) [
  | inl e ↦ rw ((list_beq_iff a allow).0 e, Covers-entry_allows host host_port (to_lower allow) c)
  | inr e ↦ ground (arith, Covers-any_entry host host_port allow entries (ground arith) c)
]

-- The loop of allowsHost accepts a host exactly when some entry of the allowlist, lowered, covers the
-- lowered host without its last dot: as "*", as "*." and a domain that the host is below, as an
-- authority with its port, or as the host itself.
pub allows_host-Covers :
    (p : HttpPolicy) (host host_port : Text)
    → (allows_host p host host_port ≡ true) ↔ (
        (allow : Text) × (contains p.allow_hosts allow ≡ true)
        × Covers (to_lower (trim_dot host)) (to_lower host_port) (to_lower allow))
unfolding allows_host
allows_host-Covers p host host_port = (
  any_entry-Covers (to_lower (trim_dot host)) (to_lower host_port) p.allow_hosts,
  λ (allow, i, c).
      Covers-any_entry (to_lower (trim_dot host)) (to_lower host_port) allow p.allow_hosts i c,
)
