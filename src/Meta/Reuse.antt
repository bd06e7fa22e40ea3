-- ===== src/Meta/Reuse.antt =====
-- cortex/meta_decision/analysis_reuse_orchestrator.py. The signature of the model versions is an
-- argument, as text.
use c_e.Common.{
  Bool, false, not, ◌&&◌, String, List, [], ◌∷◌, ◌++◌, Option, none, some, if◌then◌else◌, filter,
  any, contains, str_eq, take,
}
use c_e.Common.Dict.{Dict, get_or}
use c_e.Common.Float.{Float}
use c_e.Meta.{MemoryCase, Match, unit_clamp}

pub record ReuseDecision (F : Type 0) : Type 0 where
  pub reuse_decision : String
  pub reuse_confidence : F
  pub agents_to_bypass : List String
  pub agents_to_recheck : List String
  pub rationale : List String
  pub matched_case : Option (MemoryCase F)

abbrev pub critical_flags : List String
critical_flags = "zero_day_possible" ∷ "admin_compromise" ∷ "insider" ∷ "crown_jewel" ∷ []

abbrev pub is_critical : Dict Bool → Bool
is_critical flags = any (λ name. get_or name false flags) critical_flags

module _ {F : Type 0} ⦃o : Float F⦄ where
  abbrev no_reuse : String → ReuseDecision F
  no_reuse reason = record {
    reuse_decision = "NO_REUSE";
    reuse_confidence = o.lit 0;
    agents_to_bypass = [];
    agents_to_recheck = [];
    rationale = reason ∷ [];
    matched_case = none;
  }

  unfoldable pub confidence_in : Match F → F → F → Bool → F
  confidence_in best novelty_score criticality version_match =
      let first = unit_clamp (
        o.add
          (o.add (o.mul (o.lit 450_000) best.similarity)
            (o.mul (o.lit 350_000) best.case.reusability_score))
          (o.mul (o.lit 200_000) (o.sub (o.lit 1_000_000) novelty_score))) in
      let second = if version_match then unit_clamp (o.add first (o.lit 80_000)) else first in
      if o.le (o.lit 800_000) criticality then unit_clamp (o.sub second (o.lit 200_000)) else second

  abbrev pub versions_match : String → String → MemoryCase F → Bool
  versions_match policy_version signature case =
      str_eq case.policy_version policy_version && str_eq case.model_version signature

  unfoldable pub decide_best : Match F → F → F → String → String → ReuseDecision F
  decide_best best novelty_score criticality policy_version signature =
      let case = best.case in
      let same_versions = versions_match policy_version signature case in
      let confidence = confidence_in best novelty_score criticality same_versions in
      let notes = if o.le (o.lit 800_000) criticality then "criticality_penalty" ∷ [] else [] in
      let recheck = take 1 case.agents_used in
      if o.le (o.lit 960_000) best.similarity && o.le (o.lit 800_000) confidence && same_versions
      then record {
        reuse_decision = "FULL_REUSE";
        reuse_confidence = confidence;
        agents_to_bypass = case.agents_used;
        agents_to_recheck = [];
        rationale = notes ++ "exact_reusable_case" ∷ [];
        matched_case = some case;
      }
      else if o.le (o.lit 800_000) best.similarity && o.le (o.lit 550_000) confidence
      then record {
        reuse_decision = "PARTIAL_REUSE";
        reuse_confidence = confidence;
        agents_to_bypass = filter (λ agent. not (contains agent recheck)) case.agents_used;
        agents_to_recheck = recheck;
        rationale = notes ++ "partial_recheck_required" ∷ [];
        matched_case = some case;
      }
      else record {
        reuse_decision = "NO_REUSE";
        reuse_confidence = confidence;
        agents_to_bypass = [];
        agents_to_recheck = case.agents_used;
        rationale = notes ++ "reuse_confidence_too_low" ∷ [];
        matched_case = some case;
      }

  unfoldable pub decide : List (Match F) → F → F → String → String → Dict Bool → ReuseDecision F
  unfolding decide_best
  decide matches novelty_score criticality policy_version signature flags =
      if is_critical flags then no_reuse "reuse_blocked_by_critical_flag" else elim matches [
        | [] ↦ no_reuse "no_matching_case"
        | ◌∷◌ best _ ↦ decide_best best novelty_score criticality policy_version signature
      ]
