-- ===== src/Gateway/Search/Samples.antt =====
-- A search while the configuration is reloaded.
use gooners.Base.{
  ◌==◌, fields, ◌≡◌, refl, Bool, true, false, ◌||◌, none, some, [], ◌∷◌, if◌then◌else◌, nat_eq,
  list_eq, Text, text, to_lower, has_infix,
}
use gooners.Base.Map
use gooners.Base.Map.{Map}
use gooners.Gateway.Tools.{Tool, UpstreamConfig}
use gooners.Gateway.Scopes.{Gateway}
use gooners.Gateway.Search.{SearchToolsOutput, handle_search_tools, search_score}
use gooners.Gateway.Search.Limited.{IsLimited, handle_search_tools-answers}
use gooners.Gateway.Search.Scores.{all_terms, search_score_lem}

abbrev any_name : Text → Text → Bool
any_name pattern name = true

abbrev git : UpstreamConfig
git = record {
  name = text "git";
  tools = record {
    prefix = [];
    allow = [];
    deny = [];
    desc_max = 0;
    lazy = some true;
    scopes = [];
  };
}

abbrev clone : Tool
clone = record { name = text "clone"; description = text "Clone a repository"; schema = 0 }

abbrev before : Gateway
before = record {
  upstreams = git ∷ [];
  final_to_upstream = (text "clone", text "git") ∷ [];
  registered_tools = (text "clone", clone) ∷ [];
  discovery = true;
  blob_store = false;
}

-- After a reload that removes the upstream.
abbrev after : Gateway
after = record before { upstreams = []; final_to_upstream = []; registered_tools = [] }

handle_search_tools-answers_example :
    (out : SearchToolsOutput) × (handle_search_tools any_name before before none
        (text "Repository")
        0
      ≡ some out)
    × IsLimited 0 out
handle_search_tools-answers_example =
    handle_search_tools-answers any_name before none (text "Repository") 0

search_score_lem_example : search_score (text "clone" ∷ []) (text "Clone") [] ≡ (
    if all_terms
      (λ t. has_infix (to_lower (text "Clone")) t || has_infix (to_lower []) t)
      (text "clone" ∷ [])
    then some (
        if (text "clone" ∷ []) == (to_lower (text "Clone") ∷ [])
        then 0
        else if all_terms (has_infix (to_lower (text "Clone"))) (text "clone" ∷ [])
        then 1
        else 2)
    else none)
search_score_lem_example = search_score_lem (text "clone" ∷ []) (text "Clone") []

two_fields : fields (text " get  pods ") ≡ text "get" ∷ (text "pods" ∷ [])
unfolding fields
two_fields = refl

-- The owner of a tool in the snapshot is gone: the handler dereferences nil.
panics_across_a_reload : handle_search_tools any_name before after none (text "Repository") 0 ≡ none
unfolding handle_search_tools Map.get
panics_across_a_reload = refl
