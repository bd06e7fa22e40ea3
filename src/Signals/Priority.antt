-- ===== src/Signals/Priority.antt =====
-- services/cortex-priority-engine/cortex_priority_engine/engine.py. The ids and the lines of
-- evidence that print a number are left out.
use c_e.Common.{◌&&◌, String, List, [], ◌∷◌, ◌++◌, if◌then◌else◌}
use c_e.Common.Float.{Float, fmin}
use c_e.Signals.{units, at_least}

pub record PriorityEvaluationRequest (F : Type 0) : Type 0 where
  pub anomaly_score : F
  pub novelty_score : F
  pub trust_score : F
  pub graph_expansion : F
  pub asset_criticality : F
  pub campaign_likelihood : F

pub record PrioritySignal (F : Type 0) : Type 0 where
  pub priority_score : F
  pub route : String
  pub confidence : F
  pub evidence : List String

module _ {F : Type 0} ⦃o : Float F⦄ where
  unfoldable pub route_priority : F → PriorityEvaluationRequest F → String
  route_priority priority req =
      if at_least req.asset_criticality 80 && at_least req.campaign_likelihood 65
      then "sentinel_immediate_attention"
      else if at_least priority 70
      then "deep_graph_reasoning"
      else if at_least priority 40
      then "hybrid_analysis"
      else "fast_path"

  weighted : PriorityEvaluationRequest F → F
  weighted req =
      o.add
        (o.add
          (o.add
            (o.add
              (o.add (o.mul req.anomaly_score (o.lit 250_000))
                (o.mul req.novelty_score (o.lit 150_000)))
              (o.mul (o.sub (units 100) req.trust_score) (o.lit 200_000)))
            (o.mul req.graph_expansion (o.lit 150_000)))
          (o.mul req.asset_criticality (o.lit 150_000)))
        (o.mul req.campaign_likelihood (o.lit 100_000))

  unfoldable pub compute_priority : PriorityEvaluationRequest F → PrioritySignal F
  unfolding weighted
  compute_priority req =
      let priority = fmin (units 100) (o.round 2 (weighted req)) in
      record {
        priority_score = priority;
        route = route_priority priority req;
        confidence = fmin (o.lit 970_000) (
            o.round 2 (
              o.add (o.add (o.lit 450_000) (o.div priority (units 200)))
                (o.div req.campaign_likelihood (units 500))));
        evidence =
            (if at_least req.asset_criticality 80
              then "asset criticality requires elevated routing" ∷ []
              else [])
            ++ (if at_least req.campaign_likelihood 70
                then "campaign likelihood keeps the request on deep path" ∷ []
                else []);
      }
