-- ===== src/Gateway/Router/Samples.antt =====
-- Runs of router.go on a small table of routes, and its theorems at that table.
use gooners.Gateway.Router.{is_boundary}
use gooners.Gateway.Router.Boundary.{is_boundary-append, last_is_slash}
use gooners.Gateway.Router.{new_router, lookup, add, is_boundary}
use gooners.Gateway.Router.Routing.{lookup-longest, add_all, registered, Route}
use gooners.Base.{
  has_prefix, ◌||◌, is_empty, length, ◌++◌, ℕ, ◌≡◌, refl, none, some, List, [], ◌∷◌, text,
}
use gooners.Base.Map

abbrev routes : List (Route ℕ)
routes =
    record { host = []; path = text "/staging"; server = 1 }
    ∷ record { host = text "Example.com"; path = text "/a"; server = 2 }
    ∷ record { host = text "example.com"; path = text "/a/b/"; server = 3 }
    ∷ record { host = text "example.com"; path = text "/a"; server = 4 }
    ∷ []

-- The last Add for a path wins.
replaced : lookup (add_all new_router routes) (text "EXAMPLE.com") (text "/a/c") ≡ some 4
unfolding add_all add new_router lookup Map.get Map.put
replaced = refl

not_a_boundary : lookup (add_all new_router routes) [] (text "/staging-mcp") ≡ none
unfolding add_all add new_router lookup Map.get Map.put
not_a_boundary = refl

lookup-longest_example :
    lookup (add_all new_router routes) (text "EXAMPLE.com") (text "/a/b/c") ≡ some 3
unfolding registered is_boundary
lookup-longest_example = lookup-longest routes (text "EXAMPLE.com") (text "/a/b/c")

is_boundary-append_example :
    is_boundary (text "/staging" ++ text "-mcp") (length (text "/staging")) ≡ (
      is_empty (text "-mcp")
      || last_is_slash (text "/staging")
      || has_prefix (text "-mcp") (text "/"))
is_boundary-append_example = is_boundary-append (text "/staging") (text "-mcp")
