-- ===== src/Meta/Examples.antt =====
-- A memory of cases on concrete inputs.
use c_e.Meta.Trust.{
  assess, complexity_score, calibrate, compute_agent_trust, compute_batch, compute_item, trust_of,
}
use c_e.Common.{false, String, List, [], ◌∷◌, none, some, ◌≡◌, ◌≢◌, refl, Bool}
use c_e.Common.Int.{◌+ℤ◌, ◌*ℤ◌, ◌-ℤ◌, div_ℕ}
use c_e.Common.Float.{Micro, micro_float}
use c_e.Meta.{MemoryCase, Match, is_expired, invalidate, lookup_cases, active_cases, store_case}
use c_e.Meta.Fingerprint.{null, generate, normalize, payload}
use c_e.Meta.Linker.{link}
use c_e.Meta.Messages.{
  extract_numeric_signal, read_message, float_of, event_facts, compute_conflict,
}
use c_e.Meta.Decision.{
  EvaluateRequest, MetaDecisionResult, evaluate, attempt, with_readings, with_facts, with_memory,
  decide_on, build_requests, deep_analysis_reasons, fallback,
}
use c_e.Meta.Scores.{is_trusted, selected_of, aggregate_of, build_weighted_scores, scores_of}
use c_e.Meta.Agents.{case_trust_for, update_runtime_trust}
use c_e.Meta.InRange.{AreInRange}
use c_e.Meta.InRange.After.{
  RegistryCall, registered, outcome_recorded, trust_asked, profiles_after,
  profiles_after-AreInRange,
}
use c_e.Meta.Outcomes.{evaluate_raises_iff}
use c_e.Meta.Results.{evaluate-InUnit}
use c_e.Meta.Warrants.{selected_agents_lem, is_bypassed}
use c_e.Common.{none-ne-some, map, true, all, ◌↔◌, Option, not}
use c_e.Common.Float.{InUnit, Micro-IsOrdered}
use c_e.Common.Dict.{Holds}
use c_e.Common.Options.{map_option}
use c_e.Meta.Sample.{
  limits, alike, as_given, a_case, at, total, builtins, settings, message, a_request, a_world,
  two_agents,
}
use c_e.Meta.Reuse.{decide, is_critical, confidence_in, decide_best}
use c_e.Meta.Memory.{MemoryCall, stored, looked_up, IsSort, cases_after, invalidated_not_reused}

as_given-IsSort : IsSort as_given
as_given-IsSort = record { all-sorted = λ p ms h. h }

abbrev earlier : List (MemoryCall Micro)
earlier = stored (at 10) none (a_case "f-1") ∷ stored (at 20) none (a_case "f-2") ∷ []

abbrev later : List (MemoryCall Micro)
later = looked_up (at 30) "f-1" "m" (micro_float.lit 740_000) 5 ∷ []

abbrev kept : List (MemoryCase Micro)
kept =
    cases_after alike as_given limits later
      (invalidate "f-1" "rolled_back" (cases_after alike as_given limits earlier []))

abbrev matches : List (Match Micro)
matches = (lookup_cases alike as_given limits (at 40) "f-1" "m" (micro_float.lit 740_000) 5 kept).0

abbrev reused : MemoryCase Micro
reused = record (a_case "f-2") { created_at = at 20; ttl_seconds = 3600 }

other_case : (decide matches (at 0) (at 0) "p" "v" []).matched_case ≡ some reused
unfolding decide lookup_cases active_cases cases_after invalidate store_case is_expired ◌+ℤ◌ ◌*ℤ◌
    confidence_in div_ℕ ◌-ℤ◌
other_case = refl

full_reuse : (decide matches (at 0) (at 0) "p" "v" []).reuse_decision ≡ "FULL_REUSE"
unfolding decide lookup_cases active_cases cases_after invalidate store_case is_expired ◌+ℤ◌ ◌*ℤ◌
    confidence_in div_ℕ ◌-ℤ◌
full_reuse = refl

invalidated_not_reused_example :
    (◌≢◌ {A = String} "f-2" "f-1")
    × (◌≡◌ {A = Bool} false false)
    × (is_expired (at 40) reused ≡ false)
    × (is_critical [] ≡ false)
invalidated_not_reused_example =
    invalidated_not_reused alike as_given as_given-IsSort limits earlier later "f-1" "rolled_back"
      (at 40) "f-1" "m" (micro_float.lit 740_000) 5 (at 0) (at 0) "p" "v" [] reused tt other_case

abbrev nothing : MetaDecisionResult Micro
nothing = record {
  weighted_scores = [];
  agent_trust_scores = [];
  conflict_score = micro_float.lit 0;
  selected_agents = [];
  deep_analysis_triggered = false;
  trust_matrix = [];
  deep_analysis_requests = [];
  reuse = none;
  degraded_mode = false;
}

abbrev returned : Option (MetaDecisionResult Micro) → MetaDecisionResult Micro
returned none = nothing
returned (some r) = r

abbrev two_result : MetaDecisionResult Micro
two_result = returned (evaluate builtins settings (at 5) 3 two_agents a_world).0

two_returned : (evaluate builtins settings (at 5) 3 two_agents a_world).0 ≡ some two_result
unfolding evaluate attempt with_readings read_message float_of extract_numeric_signal with_facts
    event_facts with_memory link generate decide_on selected_of assess decide complexity_score
    lookup_cases active_cases is_expired case_trust_for update_runtime_trust aggregate_of
    build_requests build_weighted_scores deep_analysis_reasons fallback scores_of normalize payload
    compute_conflict confidence_in decide_best calibrate compute_agent_trust compute_batch
    compute_item trust_of ◌+ℤ◌ ◌*ℤ◌ ◌-ℤ◌ div_ℕ
two_returned = refl

two_asked : map (λ q. q.agent_id) two_result.deep_analysis_requests ≡ "hunter" ∷ "watcher" ∷ []
unfolding evaluate attempt with_readings read_message float_of extract_numeric_signal with_facts
    event_facts with_memory link generate decide_on selected_of assess decide complexity_score
    lookup_cases active_cases is_expired case_trust_for update_runtime_trust aggregate_of
    build_requests build_weighted_scores deep_analysis_reasons fallback scores_of normalize payload
    compute_conflict confidence_in decide_best calibrate compute_agent_trust compute_batch
    compute_item trust_of ◌+ℤ◌ ◌*ℤ◌ ◌-ℤ◌ div_ℕ
two_asked = refl

two_timely : two_result.degraded_mode ≡ false
unfolding evaluate attempt with_readings read_message float_of extract_numeric_signal with_facts
    event_facts with_memory link generate decide_on selected_of assess decide complexity_score
    lookup_cases active_cases is_expired case_trust_for update_runtime_trust aggregate_of
    build_requests build_weighted_scores deep_analysis_reasons fallback scores_of normalize payload
    compute_conflict confidence_in decide_best calibrate compute_agent_trust compute_batch
    compute_item trust_of ◌+ℤ◌ ◌*ℤ◌ ◌-ℤ◌ div_ℕ
two_timely = refl

fresh-AreInRange : AreInRange (a_world.profiles)
fresh-AreInRange id profile e = absurd (none-ne-some e)

evaluate-InUnit_example :
    Holds (λ name x. InUnit x) two_result.weighted_scores
    × Holds (λ agent x. InUnit x) two_result.agent_trust_scores
    × InUnit two_result.conflict_score
    × AreInRange (evaluate builtins settings (at 5) 3 two_agents a_world).1.profiles
evaluate-InUnit_example =
    evaluate-InUnit Micro-IsOrdered builtins settings (at 5) 3 two_agents a_world two_result
      fresh-AreInRange two_returned

selected_agents_lem_example :
    (all (is_trusted builtins settings two_result.agent_trust_scores) two_result.selected_agents
      ≡ true)
    × (all (λ id. not (is_bypassed two_result.reuse id)) two_result.selected_agents ≡ true)
selected_agents_lem_example =
    selected_agents_lem builtins settings (at 5) 3 two_agents a_world two_result two_returned
      two_timely

abbrev null_risk : EvaluateRequest Micro
null_risk = a_request (message "hunter" null ∷ [])

evaluate_raises_iff_example :
    ((evaluate builtins settings (at 5) 3 null_risk a_world).0 ≡ none)
    ↔ (map_option (extract_numeric_signal builtins) null_risk.agent_messages ≡ none)
evaluate_raises_iff_example = evaluate_raises_iff builtins settings (at 5) 3 null_risk a_world

null_risk_raises : (evaluate builtins settings (at 5) 3 null_risk a_world).0 ≡ none
unfolding extract_numeric_signal float_of
null_risk_raises = (evaluate_raises_iff builtins settings (at 5) 3 null_risk a_world).1 refl

abbrev registry_calls : List (RegistryCall Micro)
registry_calls =
    registered "hunter" [] (("identity", at 3) ∷ []) (at 7)
    ∷ outcome_recorded "hunter" "identity" true (at 2)
    ∷ trust_asked "watcher" none
    ∷ []

profiles_after-AreInRange_example : AreInRange (profiles_after total registry_calls [])
profiles_after-AreInRange_example = profiles_after-AreInRange Micro-IsOrdered total registry_calls
