-- ===== src/Gateway/Tools/Built.antt =====
-- BuildTools of internal/gateway/upstream.go: the names of the tools that it gives.
use gooners.Base.{
  ◌⊎◌, ◌≢◌, ◌++◌, true, false, All, contains, ==-self, ◌≡◌, refl, inl, inr, Bool, List, [], ◌∷◌,
  arith, nat_eq, list_eq, Bool-cases, Text, trim_prefix, trim_prefix-append,
}
use gooners.Gateway.Names.{namespace_name}
use gooners.Gateway.Tools.{Tool, ToolsConfig, allowed, build_tools, any_match, trim_description}

trim_prefix-namespace_name :
    (prefix name : Text) → trim_prefix (namespace_name prefix name) prefix ≡ name
unfolding namespace_name
trim_prefix-namespace_name [] name = trim_prefix-append [] name
trim_prefix-namespace_name (c ∷ prefix) name = trim_prefix-append (c ∷ prefix) name

module _ (path_match : Text → Text → Bool) (cfg : ToolsConfig) where
  -- Some pattern of a list matches a name, and none does.
  abbrev pub Matched : List Text → Text → Type 0
  Matched patterns name = (p : Text) × (contains patterns p ≡ true) × (path_match p name ≡ true)

  abbrev pub Unmatched : List Text → Text → Type 0
  Unmatched patterns name = All (λ p. path_match p name ≡ false) patterns

  -- An upstream permits a name that some allow pattern matches, or any name where there is no allow
  -- pattern, unless some deny pattern matches it.
  abbrev pub IsPermitted : Text → Type 0
  IsPermitted name = ((cfg.allow ≡ []) ⊎ Matched cfg.allow name) × Unmatched cfg.deny name

  abbrev pub IsRefused : Text → Type 0
  IsRefused name = ((cfg.allow ≢ []) × Unmatched cfg.allow name) ⊎ Matched cfg.deny name

  -- What is served for a tool.
  pub record IsServed (t u : Tool) : Type 0 where
    pub prefixed : u.name ≡ cfg.prefix ++ t.name
    pub stripped : trim_prefix u.name cfg.prefix ≡ t.name
    pub trimmed : u.description ≡ trim_description t.description cfg.desc_max
    pub same_schema : u.schema ≡ t.schema

  -- A list of tools against what is made of it, tool by tool.
  pub data Built : List Tool → List Tool → Type 0 where
    nothing : Built [] []
    served :
        {t u : Tool} {ts us : List Tool}
        → IsPermitted t.name
        → IsServed t u
        → Built ts us
        → Built (t ∷ ts) (u ∷ us)
    refused : {t : Tool} {ts us : List Tool} → IsRefused t.name → Built ts us → Built (t ∷ ts) us

  any_match-Matched :
      (patterns : List Text) (name : Text)
      → any_match path_match patterns name ≡ true
      → Matched patterns name
  any_match-Matched [] name h = cc
  any_match-Matched (p ∷ patterns) name h = elim (Bool-cases (path_match p name)) [
    | inl e ↦ (p, ground (arith, ==-self p), e)
    | inr e ↦
        let (q, found, m) = any_match-Matched patterns name (ground (arith, h, e)) in
        (q, ground (arith, found), m)
  ]

  any_match-Unmatched :
      (patterns : List Text) (name : Text)
      → any_match path_match patterns name ≡ false
      → Unmatched patterns name
  any_match-Unmatched [] name h = tt
  any_match-Unmatched (p ∷ patterns) name h =
      (ground (arith, h), any_match-Unmatched patterns name (ground (arith, h)))

  allowed-parts :
      (name : Text)
      → allowed path_match cfg name ≡ true
      → ((cfg.allow ≡ []) ⊎ (any_match path_match cfg.allow name ≡ true))
        × (any_match path_match cfg.deny name ≡ false)
  unfolding allowed
  allowed-parts name h = ground (arith, h)

  refused-parts :
      (name : Text)
      → allowed path_match cfg name ≡ false
      → ((cfg.allow ≢ []) × (any_match path_match cfg.allow name ≡ false))
        ⊎ (any_match path_match cfg.deny name ≡ true)
  unfolding allowed
  refused-parts name h = ground (arith, h)

  allowed-IsPermitted : (name : Text) → allowed path_match cfg name ≡ true → IsPermitted name
  allowed-IsPermitted name h =
      let (here, deny) = allowed-parts name h in
      (
        elim here [ inl e ↦ inl e | inr e ↦ inr (any_match-Matched cfg.allow name e) ],
        any_match-Unmatched cfg.deny name deny,
      )

  allowed-IsRefused : (name : Text) → allowed path_match cfg name ≡ false → IsRefused name
  allowed-IsRefused name h = elim (refused-parts name h) [
    | inl (some_pattern, e) ↦ inl (some_pattern, any_match-Unmatched cfg.allow name e)
    | inr e ↦ inr (any_match-Matched cfg.deny name e)
  ]

  namespace_name-append : (prefix name : Text) → namespace_name prefix name ≡ prefix ++ name
  unfolding namespace_name
  namespace_name-append [] name = refl
  namespace_name-append (c ∷ prefix) name = refl

  -- The tools that are built are those of the upstream that its patterns permit, in their order: a name
  -- that some allow pattern matches, or any where there is none, unless a deny pattern matches. Each has
  -- the prefix in front of its own name, which stripping the prefix gives back, its description cut at
  -- the limit, and its schema; every other tool is refused by the patterns.
  pub build_tools-Built : (tools : List Tool) → Built tools (build_tools path_match cfg tools)
  unfolding build_tools
  build_tools-Built [] = nothing
  build_tools-Built (t ∷ tools) = elim (Bool-cases (allowed path_match cfg t.name)) [
    | inl e ↦
        rw (e, build_tools)
          (served (allowed-IsPermitted t.name e)
            (record {
              prefixed = namespace_name-append cfg.prefix t.name;
              stripped = trim_prefix-namespace_name cfg.prefix t.name;
              trimmed = refl;
              same_schema = refl;
            })
            (build_tools-Built tools))
    | inr e ↦ rw (e, build_tools) (refused (allowed-IsRefused t.name e) (build_tools-Built tools))
  ]
