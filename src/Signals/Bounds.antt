-- ===== src/Signals/Bounds.antt =====
-- The ranges of the signals and the order of the routes.
use c_e.Common.{
  ℕ, ◌≤◌, Bool, true, false, ◌&&◌, String, List, ◌≡◌, refl, ◌∙◌, ap, arith, if◌then◌else◌, str_eq,
}
use c_e.Common.Dict.{Dict}
use c_e.Common.Float.{Float, IsOrdered, ◌≼◌, fmin, fmax}
use c_e.Signals.{units, at_least}
use c_e.Signals.Decay.{InsiderEvent, evaluate, signal_of}
use c_e.Signals.Priority.{PriorityEvaluationRequest, route_priority, compute_priority}

-- The place of a route on the ladder.
abbrev depth_of : String → ℕ
depth_of route =
    if str_eq route "fast_path"
    then 0
    else if str_eq route "hybrid_analysis"
    then 1
    else if str_eq route "deep_graph_reasoning"
    then 2
    else 3

depth_of-if :
    (b : Bool) (s t : String)
    → depth_of (if b then s else t) ≡ (if b then depth_of s else depth_of t)
depth_of-if true s t = refl
depth_of-if false s t = refl

module _ {F : Type 0} ⦃o : Float F⦄ (laws : IsOrdered F) where
  open laws use {lit_mono, le_of_lt, le_trans, refl_of_le, not_lt_of_le}

  fmin-le : (m : ℕ) (x : F) → fmin (o.lit m) x ≼ o.lit m
  fmin-le m x = ground (arith, le_of_lt x (o.lit m), lit_mono m m)

  fmax-le : (m : ℕ) (x : F) → o.lit m ≼ fmax (o.lit m) x
  fmax-le m x = ground (arith, le_of_lt (o.lit m) x, lit_mono m m)

  at_least_mono : (n : ℕ) (x y : F) → x ≼ y → at_least x n ≡ true → at_least y n ≡ true
  at_least_mono n x y h k = le_trans (units n) x y k h

  depth_of-route_priority :
      (p : F) (req : PriorityEvaluationRequest F)
      → depth_of (route_priority p req) ≡ (
          if at_least req.asset_criticality 80 && at_least req.campaign_likelihood 65
          then 3
          else if at_least p 70
          then 2
          else if at_least p 40
          then 1
          else 0)
  unfolding route_priority
  depth_of-route_priority p req =
      depth_of-if (at_least req.asset_criticality 80 && at_least req.campaign_likelihood 65) _ _
      ∙ ap
          (λ n.
            if at_least req.asset_criticality 80 && at_least req.campaign_likelihood 65
            then 3
            else n)
          (depth_of-if (at_least p 70) _ _
            ∙ ap (λ n. if at_least p 70 then 2 else n) (depth_of-if (at_least p 40) _ _))

  -- Given the order laws of floats: of two requests with the same asset criticality and campaign
  -- likelihood, the one with the higher priority is never routed to a shallower path, on the ladder
  -- of the fast path, the hybrid analysis, the deep graph reasoning and the sentinel's attention.
  route_priority-monotone :
      (low high : F) (first second : PriorityEvaluationRequest F)
      → low ≼ high
      → first.asset_criticality ≡ second.asset_criticality
      → first.campaign_likelihood ≡ second.campaign_likelihood
      → depth_of (route_priority low first) ≤ depth_of (route_priority high second)
  route_priority-monotone low high first second le assets campaigns = ground (
    arith,
    depth_of-route_priority low first,
    depth_of-route_priority high second,
    at_least_mono 70 low high le,
    at_least_mono 40 low high le,
    ap (λ x. at_least x 80) assets,
    ap (λ x. at_least x 65) campaigns,
  )

  -- Given the order laws of floats: whatever the request, the priority is at most 100 and the
  -- confidence at most 0.97.
  compute_priority_lem :
      (req : PriorityEvaluationRequest F)
      → ((compute_priority req).priority_score ≼ units 100)
        × ((compute_priority req).confidence ≼ o.lit 970_000)
  unfolding compute_priority
  compute_priority_lem req = (fmin-le _ _, fmin-le _ _)

  -- Given the order laws of floats: every score of an insider signal is at most its bound, 100 for
  -- the two scores of the session, 40 for the recovery and 0.94 for the confidence, and the decay
  -- is at least 0.
  evaluate_bounds :
      (sum : List F → F) (histories : Dict (List InsiderEvent)) (k : String)
      → (events : List InsiderEvent)
      → let signal = evaluate sum histories k events in
        (signal.role_misalignment_score ≼ units 100)
        × (signal.sensitive_access_without_context_score ≼ units 100)
        × (units 0 ≼ signal.cumulative_trust_decay)
        × (signal.trust_decay_recovery ≼ units 40)
        × (signal.confidence ≼ o.lit 940_000)
  unfolding evaluate signal_of
  evaluate_bounds sum histories k events =
      (fmin-le _ _, fmin-le _ _, fmax-le _ _, fmin-le _ _, fmin-le _ _)
