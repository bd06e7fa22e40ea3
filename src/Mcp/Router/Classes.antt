-- ===== src/Mcp/Router/Classes.antt =====
-- The classification of a task never raises.
use c_e.Common.{
  Bool, true, false, String, List, [], ◌∷◌, ◌≡◌, ◌≢◌, refl, arith, Option, none, some, All,
  Option-cases, inl, inr, none-ne-some, all→All,
}
use c_e.Mcp.Models.{task_of_value}
use c_e.Mcp.Keywords.{fast_path_keywords}
use c_e.Mcp.Router.{fast_path, route, RouterConfig, Breakers}

abbrev names_task : String × String → Bool
names_task entry = elim (task_of_value entry.1) [ none ↦ false | some _ ↦ true ]

fast_path-valid :
    (table : List (String × String)) (joined value : String)
    → All (λ entry. names_task entry ≡ true) table
    → fast_path table joined ≡ some value
    → task_of_value value ≢ none
unfolding fast_path
fast_path-valid [] joined value h e = absurd (none-ne-some e)
fast_path-valid ((k, v) ∷ rest) joined value (p, ps) e =
    ground (arith, fast_path-valid rest joined value ps)

keywords_valid : All (λ entry. names_task entry ≡ true) fast_path_keywords
unfolding task_of_value
keywords_valid = all→All names_task fast_path_keywords refl

keyword_reply_valid :
    (joined : String) {value : String}
    → fast_path fast_path_keywords joined ≡ some value
    → task_of_value value ≢ none
keyword_reply_valid joined e = fast_path-valid fast_path_keywords joined _ keywords_valid e

-- `route` returns a decision for every text, configuration, breaker state and classifier reply,
-- a failed reply included: no keyword of the table raises a `ValueError`.
pub route_total :
    (c : RouterConfig) (breakers : Breakers) (joined : String) (phi3 : Option String)
    → route c breakers joined phi3 ≢ none
unfolding route
route_total c breakers joined phi3 = elim (Option-cases (fast_path fast_path_keywords joined)) [
  | inl e ↦ ground arith
  | inr (v, e) ↦ ground (arith, keyword_reply_valid joined e)
]
