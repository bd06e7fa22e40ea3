-- ===== src/Orchestrator/Assess.antt =====
-- `_assess_meta_decision` of services/cortex-orchestrator/cortex_orchestrator/main.py. `abs` and
-- the builtin `sum` are arguments, as the summary's text is left out.
use c_e.Common.{
  ℕ, Bool, not, String, List, [], ◌∷◌, ◌++◌, map, arith, if◌then◌else◌, length, filter, is_empty,
  contains,
}
use c_e.Common.Int.{pos}
use c_e.Common.{none-ne-some, Bool-cases, inl, inr}
use c_e.Common.Dict.{Dict, insert, Holds, insert-Holds}
use c_e.Common.Float.{min_from, spread_of, is_zero, Float, IsOrdered, InUnit, clamp, clamp-InUnit}

pub record AgentSignal (F : Type 0) : Type 0 where
  pub agent_id : String
  pub specialty : String
  pub risk_signal : F
  pub runtime_trust : F
  pub uncertainty : F
  pub data_quality : F
  pub reasoning_quality : F

pub record AssessmentRequest (F : Type 0) : Type 0 where
  pub novelty_score : F
  pub asset_criticality : F
  pub blast_radius : F
  pub crown_jewel : Bool
  pub signals : List (AgentSignal F)

pub record DeepAnalysisRequest : Type 0 where
  pub agent_id : String
  pub reasons : List String
  pub deadline_ms : ℕ

pub record Assessment (F : Type 0) : Type 0 where
  pub aggregate_risk : F
  pub agent_trust_scores : Dict F
  pub conflict_score : F
  pub selected_agents : List String
  pub deep_analysis_triggered : Bool
  pub deep_analysis_requests : List DeepAnalysisRequest
  pub criticality : F

abbrev reason_if : Bool → String → List String
reason_if test reason = if test then reason ∷ [] else []

module _ {F : Type 0} ⦃o : Float F⦄ where
  abbrev unit_clamp : F → F
  unit_clamp = clamp (o.lit 0) (o.lit 1_000_000)

  unfoldable pub trust_of : AgentSignal F → F
  trust_of a = unit_clamp (
      o.sub
        (o.add
          (o.add
            (o.add (o.add (o.lit 300_000) (o.mul (o.lit 240_000) a.runtime_trust))
              (o.mul (o.lit 160_000) a.data_quality))
            (o.mul (o.lit 160_000) a.reasoning_quality))
          (if contains a.specialty
              ("response_decision" ∷ "containment_planning" ∷ "identity_graph" ∷ [])
            then o.lit 100_000
            else o.lit 0))
        (o.mul (o.lit 180_000) a.uncertainty))

  abbrev trusted : AgentSignal F → Bool
  trusted a = o.le (o.lit 450_000) (trust_of a)

  -- The sums of the loop, over the trusted signals.
  abbrev weighted_from : F → List (AgentSignal F) → F
  weighted_from total [] = total
  weighted_from total (a ∷ rest) =
      weighted_from (o.add total (o.mul a.risk_signal (trust_of a))) rest

  abbrev trust_from : F → List (AgentSignal F) → F
  trust_from total [] = total
  trust_from total (a ∷ rest) = trust_from (o.add total (trust_of a)) rest

  -- `trust_scores[agent_id] = trust` for each signal
  abbrev score_all : Dict F → List (AgentSignal F) → Dict F
  score_all d [] = d
  score_all d (a ∷ rest) = score_all (insert a.agent_id (trust_of a) d) rest

  abbrev least_trust : List F → F
  least_trust [] = o.lit 1_000_000
  least_trust (x ∷ xs) = min_from x xs

  unfoldable pub aggregate_risk_of : List (AgentSignal F) → F
  aggregate_risk_of signals =
      let chosen = filter trusted signals in
      let total = trust_from (o.lit 0) chosen in
      if is_zero total then o.lit 0 else unit_clamp (o.div (weighted_from (o.lit 0) chosen) total)

  unfoldable pub criticality_of : AssessmentRequest F → F
  criticality_of req = unit_clamp (
      o.add
        (o.add (o.mul (o.lit 550_000) req.asset_criticality)
          (o.mul (o.lit 300_000) req.blast_radius))
        (o.mul (o.lit 150_000) (if req.crown_jewel then o.lit 1_000_000 else o.lit 0)))

  module _ (abs : F → F) (sum : List F → F) where
    abbrev mean : List F → F
    mean xs = o.div (sum xs) (o.of_int (pos (length xs)))

    unfoldable pub conflict_of : List F → F
    conflict_of scores =
        let disagreement =
          if is_empty scores
          then o.lit 0
          else mean (map (λ x. abs (o.sub x (mean scores))) scores) in
        unit_clamp
          (o.add (o.mul (o.lit 600_000) (spread_of scores)) (o.mul (o.lit 400_000) disagreement))

    unfoldable pub reasons_of : AssessmentRequest F → List String
    reasons_of req =
        reason_if (o.le (o.lit 550_000) (conflict_of (map (λ a. a.risk_signal) req.signals)))
          "agent_conflict"
        ++ reason_if
            (o.lt (least_trust (map (λ entry. entry.1) (score_all [] req.signals))) (o.lit 450_000))
            "low_agent_trust"
        ++ reason_if (o.le (o.lit 700_000) req.novelty_score) "high_novelty"
        ++ reason_if (o.le (o.lit 750_000) (criticality_of req)) "critical_asset"

    unfoldable pub assess_meta_decision : AssessmentRequest F → Assessment F
    unfolding aggregate_risk_of conflict_of criticality_of
    assess_meta_decision req =
        let reasons = reasons_of req in
        let selected = map (λ a. a.agent_id) (filter trusted req.signals) in
        let triggered = not (is_empty reasons) in
        record {
          aggregate_risk = aggregate_risk_of req.signals;
          agent_trust_scores = score_all [] req.signals;
          conflict_score = conflict_of (map (λ a. a.risk_signal) req.signals);
          selected_agents = selected;
          deep_analysis_triggered = triggered;
          deep_analysis_requests =
              if triggered
              then map (λ id. record { agent_id = id; reasons = reasons; deadline_ms = 150 })
                  selected
              else [];
          criticality = criticality_of req;
        }

module _ {F : Type 0} ⦃o : Float F⦄ (laws : IsOrdered F) (abs : F → F) (sum : List F → F) where
  open laws use {lit_mono}

  aggregate_risk_of-InUnit : (signals : List (AgentSignal F)) → InUnit (aggregate_risk_of signals)
  unfolding aggregate_risk_of
  aggregate_risk_of-InUnit signals =
      let chosen = filter trusted signals in
      let total = trust_from (o.lit 0) chosen in
      elim (Bool-cases (is_zero total)) [
        | inl none_trusted ↦ ground (arith, lit_mono 0 0, lit_mono 0 1_000_000)
        | inr some_trusted ↦
            ground (arith, clamp-InUnit laws (o.div (weighted_from (o.lit 0) chosen) total))
      ]

  trusts-InUnit :
      (d : Dict F) (signals : List (AgentSignal F))
      → Holds (λ k x. InUnit x) d
      → Holds (λ k x. InUnit x) (score_all d signals)
  unfolding trust_of
  trusts-InUnit d [] h = h
  trusts-InUnit d (a ∷ rest) h =
      trusts-InUnit (insert a.agent_id (trust_of a) d) rest
        (insert-Holds (λ k x. InUnit x) a.agent_id (trust_of a) d (clamp-InUnit laws _) h)

  -- Given the order laws of floats: of every assessment, the aggregate risk, the conflict score, the
  -- criticality and each agent's trust score are between 0 and 1, even where the signals' numbers
  -- are not.
  pub assess_meta_decision_lem :
      (req : AssessmentRequest F)
      → let decision = assess_meta_decision abs sum req in
        InUnit decision.aggregate_risk
        × InUnit decision.conflict_score
        × InUnit decision.criticality
        × Holds (λ k x. InUnit x) decision.agent_trust_scores
  unfolding assess_meta_decision conflict_of criticality_of
  assess_meta_decision_lem req = (
    aggregate_risk_of-InUnit req.signals,
    clamp-InUnit laws _,
    clamp-InUnit laws _,
    trusts-InUnit [] req.signals (λ k x e. absurd (none-ne-some e)),
  )
