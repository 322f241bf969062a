-- ===== src/Gateway/Reload/Routes.antt =====
-- internal/gateway/reload.go, gateway.go: the routes of a gateway over any history of the calls that
-- change them.
use gooners.Base.{
  nat_beq_iff, ℕ, ◌+◌, ◌≤◌, ◌≡◌, refl, sym, ap, ◌∙◌, inl, inr, not, Option, none, some, List, [],
  ◌∷◌, ◌++◌, arith, if◌then◌else◌, ◌==◌, nat_eq, list_beq_iff, list_eq, Bool-cases, Option-cases,
  length, get_or, or_else, length-keep-le, count, Text, to_lower,
}
use Prim.{⊥}
use gooners.Gateway.Router.Routing.{registered, lookup-longest}
use gooners.Gateway.Router.Longest.{longest}
use gooners.Gateway.Reload.{Section, name_of}
use gooners.Gateway.Reload.Live.{
  RoutedServer, Routes, built, route_list, others, remove_route, replace_server, set_route_server,
  server_for_request,
}

pub data Change : Type 0 where
  set : Section → ℕ → Change
  remove : Text → Change

abbrev pub change : Change → Routes → Routes
change (set uc server) g = set_route_server uc server g
change (remove up) g = remove_route up g

-- The routes after some changes, the latest first.
abbrev pub after : List Change → Routes
after [] = built []
after (x ∷ past) = change x (after past)

abbrev pub upstreams : List RoutedServer → List Text
upstreams [] = []
upstreams (r ∷ table) = r.upstream ∷ upstreams table

others-all :
    (up : Text) (table : List RoutedServer)
    → length (others up table) ≡ length table
    → others up table ≡ table
others-all up [] h = refl
others-all up (r ∷ table) h = elim (Bool-cases (r.upstream == up)) [
  | inl e ↦
      let short = length-keep-le (λ x. not (x.upstream == up)) table in
      let no : ⊥ = ground (arith, e, short) in elim no [ ]
  | inr e ↦ ground (arith, e, others-all up table)
]

pub remove_route-built :
    (up : Text) (g : Routes) → g ≡ built g.table → remove_route up g ≡ built (others up g.table)
unfolding remove_route
remove_route-built up g h = elim (Bool-cases (length (others up g.table) == length g.table)) [
  | inl e ↦
      let all =
        others-all up g.table ((nat_beq_iff (length (others up g.table)) (length g.table)).0 e) in
      rw (e, remove_route) (h ∙ ap built (sym all))
  | inr e ↦ rw (e, remove_route) refl
]

count-others :
    (up n : Text) (table : List RoutedServer)
    → count n (upstreams (others up table)) ≤ count n (upstreams table)
count-others up n [] = omega arith
count-others up n (r ∷ table) = ground (arith, count-others up n table)

upstreams-replace :
    (up : Text) (server : ℕ) (table rest : List RoutedServer)
    → replace_server up server table ≡ some rest
    → upstreams rest ≡ upstreams table
upstreams-replace up server [] rest h = cc
upstreams-replace up server (r ∷ table) rest h = elim (Bool-cases (r.upstream == up)) [
  | inl e ↦ ground (arith, e)
  | inr e ↦ elim (Option-cases (replace_server up server table)) [
    | inl f ↦ let no : ⊥ = ground (arith, e, f) in elim no [ ]
    | inr (rest', f) ↦ ground (arith, e, f, upstreams-replace up server table rest' f)
  ]
]

count-append :
    (n : Text) (table : List RoutedServer) (r : RoutedServer)
    → count n (upstreams (table ++ (r ∷ [])))
      ≡ count n (upstreams table) + (if r.upstream == n then 1 else 0)
count-append n [] r = ground arith
count-append n (x ∷ table) r = ground (arith, count-append n table r)

replace_server-none :
    (up : Text) (server : ℕ) (table : List RoutedServer)
    → replace_server up server table ≡ none
    → count up (upstreams table) ≡ 0
replace_server-none up server [] h = refl
replace_server-none up server (r ∷ table) h =
    ground
      (arith, Option-cases (replace_server up server table), replace_server-none up server table)

-- Each upstream has one route at most.
abbrev pub IsSingle : List RoutedServer → Type 0
IsSingle table = (n : Text) → count n (upstreams table) ≤ 1

set_route_server-IsSingle :
    (uc : Section) (server : ℕ) (g : Routes)
    → IsSingle g.table
    → IsSingle (set_route_server uc server g).table
unfolding set_route_server
set_route_server-IsSingle uc server g h n =
    elim (Option-cases (replace_server (name_of uc) server g.table)) [
      | inl e ↦
          let added : RoutedServer = record {
            upstream = name_of uc;
            route = record { host = uc.route_host; path = uc.route_path; server = server };
          } in
          rw (e, set_route_server)
            (ground (
              arith,
              count-append n g.table added,
              replace_server-none (name_of uc) server g.table e,
              h n,
              list_beq_iff (name_of uc) n,
            ))
      | inr (rest, e) ↦
          rw (e, set_route_server) (rw (upstreams-replace (name_of uc) server g.table rest e) (h n))
    ]

set_route_server-built :
    (uc : Section) (server : ℕ) (g : Routes)
    → set_route_server uc server g ≡ built (set_route_server uc server g).table
unfolding set_route_server
set_route_server-built uc server g = refl

after-IsBuilt :
    (past : List Change) → (after past ≡ built (after past).table) × IsSingle (after past).table
after-IsBuilt [] = (refl, λ n. omega arith)
after-IsBuilt (set uc server ∷ past) = (
  set_route_server-built uc server (after past),
  set_route_server-IsSingle uc server (after past) (after-IsBuilt past).1,
)
after-IsBuilt (remove up ∷ past) =
    let before = after-IsBuilt past in
    let same = remove_route-built up (after past) before.0 in
    (
      same ∙ ap built (sym (ap (λ g. g.table) same)),
      λ n. rw same (omega (arith, count-others up n (after past).table, before.1 n)),
    )

-- After any history of routes that are set and removed, every upstream has one route at most, and a
-- request goes to the server of the longest route in the table that fits its host and path, a route of
-- the host before those of any host, or to the gateway's own server where none fits.
pub server_for_request-longest :
    (split_host_port : Text → Option Text) (own : ℕ) (past : List Change) (host path : Text)
    → IsSingle (after past).table
      × (server_for_request split_host_port own (after past) host path ≡ (
          let routes = route_list (after past).table in
          get_or
            (or_else
              (longest (registered routes (to_lower (get_or (split_host_port host) host))) path)
              (longest (registered routes []) path))
            own))
unfolding server_for_request
server_for_request-longest split_host_port own past host path =
    let kept = after-IsBuilt past in
    let name = get_or (split_host_port host) host in
    (
      kept.1,
      ap (λ g. server_for_request split_host_port own g host path) kept.0
          ∙ ap (λ x. get_or x own) (lookup-longest (route_list (after past).table) name path),
    )
