-- ===== src/Meta/Scores.antt =====
-- `_build_weighted_scores` of cortex/meta_decision/meta_decision_agent.py and what `evaluate` makes of
-- its scores and agents when a case is reused.
use c_e.Common.{
  Bool, not, ◌&&◌, String, ◌+str◌, List, [], ◌∷◌, map, Option, none, some, if◌then◌else◌, filter,
  is_empty, contains,
}
use c_e.Common.Dict.{Dict, get_or, insert}
use c_e.Common.Float.{Float, is_zero, min_from}
use c_e.Meta.{MemoryCase, unit_clamp}
use c_e.Meta.Reuse.{ReuseDecision}
use c_e.Meta.Linker.{Builtins, Settings}
use c_e.Meta.Messages.{Reading, mean_of}

abbrev pub is_reused : String → Bool
is_reused decision = contains decision ("FULL_REUSE" ∷ "PARTIAL_REUSE" ∷ [])

module _ {F : Type 0} ⦃o : Float F⦄ (b : Builtins F) (settings : Settings F) where
  abbrev pub signals_in : List (Reading F) → List F
  signals_in = map (λ r. r.signal)

  abbrev pub senders_in : List (Reading F) → List String
  senders_in = map (λ r. r.sender)

  abbrev pub is_trusted : Dict F → String → Bool
  is_trusted trusts id = not (o.lt (get_or id (o.lit 0) trusts) settings.min_trust_threshold)

  -- The totals of signal times trust, and of trust, over the trusted messages.
  abbrev pub totals_from : Dict F → List (Reading F) → F → F → F × F
  totals_from trusts [] weighted total = (weighted, total)
  totals_from trusts (r ∷ rest) weighted total =
      let trust = get_or r.sender (o.lit 0) trusts in
      let next_weighted =
        if is_trusted trusts r.sender then o.add weighted (o.mul r.signal trust) else weighted in
      let next_total = if is_trusted trusts r.sender then o.add total trust else total in
      totals_from trusts rest next_weighted next_total

  abbrev pub risks_from : Dict F → List (Reading F) → Dict F → Dict F
  risks_from trusts [] scores = scores
  risks_from trusts (r ∷ rest) scores = risks_from trusts rest (
      insert (r.sender +str "_risk")
        (unit_clamp (o.mul r.signal (get_or r.sender (o.lit 0) trusts))) scores)

  unfoldable pub aggregate_of : Dict F → List (Reading F) → F
  aggregate_of trusts readings =
      let (weighted, total) = totals_from trusts readings (o.lit 0) (o.lit 0) in
      if is_zero total then o.lit 0 else unit_clamp (o.div weighted total)

  unfoldable pub build_weighted_scores : List (Reading F) → Dict F → Dict F × List String
  build_weighted_scores readings trusts = (
    risks_from trusts readings (("aggregate_risk", aggregate_of trusts readings) ∷ []),
    filter (is_trusted trusts) (senders_in readings),
  )

  abbrev pub blend : Dict F → Dict F → Dict F
  blend model_scores scores =
      if is_empty model_scores
      then scores
      else insert "model_blend" (unit_clamp (mean_of b (map (λ entry. entry.1) model_scores)))
          scores

  -- `matched_case.get("scores", {}).get("aggregate_risk", 0.0)`
  abbrev pub reused_risk_of : Option (MemoryCase F) → F
  reused_risk_of none = unit_clamp (o.lit 0)
  reused_risk_of (some case) = unit_clamp (get_or "aggregate_risk" (o.lit 0) case.scores)

  abbrev pub with_reused : ReuseDecision F → Dict F → Dict F
  with_reused reuse scores =
      let reused = reused_risk_of reuse.matched_case in
      insert "aggregate_risk"
        (unit_clamp (
          o.add (o.mul (o.lit 700_000) (get_or "aggregate_risk" (o.lit 0) scores))
            (o.mul (o.lit 300_000) reused)))
        (insert "reused_risk" reused scores)

  -- The mean of the signals where the aggregate risk is zero.
  abbrev pub or_mean : List (Reading F) → Dict F → Dict F
  or_mean readings scores =
      if is_zero (get_or "aggregate_risk" (o.lit 0) scores) && not (is_empty readings)
      then insert "aggregate_risk" (unit_clamp (mean_of b (signals_in readings))) scores
      else scores

  unfoldable pub scores_of : List (Reading F) → Dict F → Dict F → ReuseDecision F → Dict F
  scores_of readings trusts model_scores reuse =
      let own = blend model_scores (build_weighted_scores readings trusts).0 in
      or_mean readings (if is_reused reuse.reuse_decision then with_reused reuse own else own)

  unfoldable pub selected_of : List (Reading F) → Dict F → ReuseDecision F → List String
  selected_of readings trusts reuse =
      let selected = (build_weighted_scores readings trusts).1 in
      if is_reused reuse.reuse_decision
      then filter (λ id. not (contains id reuse.agents_to_bypass)) selected
      else selected

  abbrev pub least_trust : Dict F → F
  least_trust [] = o.lit 0
  least_trust ((id, x) ∷ rest) = min_from x (map (λ entry. entry.1) rest)
