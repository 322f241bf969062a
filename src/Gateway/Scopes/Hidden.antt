-- ===== src/Gateway/Scopes/Hidden.antt =====
-- handleDescribeTools of internal/gateway/discovery.go: tools that a caller may not see.
use gooners.Base.{◌+◌, ◌≡◌, refl, not, List, [], ◌∷◌, arith, nat_eq, list_eq, length, keep, Text}
use gooners.Base.Map
use gooners.Base.Map.{Map}
use gooners.Gateway.Tools.{Tool}
use gooners.Gateway.Scopes.{Gateway, describe}

-- What is found and what is not, apart from the loop.
pub describe-missing :
    (v : Map Text Tool) (names : List Text)
    → ((describe v names).1 ≡ keep (λ name. not (Map.has name v)) names)
      × (length (describe v names).0 + length (describe v names).1 ≡ length names)
unfolding describe
describe-missing v [] = (refl, omega arith)
describe-missing v (name ∷ names) =
    (ground (arith, describe-missing v names), ground (arith, describe-missing v names))

-- The gateway after a tool was registered under a name for an upstream.
abbrev pub with_tool : Gateway → Text → Tool → Text → Gateway
with_tool g name t up = record g {
  registered_tools = Map.put name t g.registered_tools;
  final_to_upstream = Map.put name up g.final_to_upstream;
}
