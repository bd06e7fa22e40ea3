-- ===== src/Meta/Results.antt =====
-- What the results of an evaluation hold, on every path.
use c_e.Common.{
  ℕ, Bool, true, false, String, List, [], ◌∷◌, map, Option, none, some, if◌then◌else◌, ◌≡◌, refl,
  inl, inr, arith, Bool-cases, subst, sym, none-ne-some, length, is_empty, leb, ltb, ◌+str◌,
}
use c_e.Common.Dict.{Dict, insert, Holds, insert-Holds}
use c_e.Common.Float.{Float, IsOrdered, InUnit, lit-InUnit, clamp-InUnit, is_zero}
use c_e.Common.Options.{map_option}
use c_e.Meta.{MemoryCase, unit_clamp}
use c_e.Meta.Reuse.{ReuseDecision}
use c_e.Meta.Trust.{Criteria, TrustComputation, compute_batch, calibrate, calibrate_from}
use c_e.Meta.InRange.{AreInRange, compute_batch-AreInRange}
use c_e.Meta.Linker.{Builtins, Settings, MemoryContext}
use c_e.Meta.Messages.{Reading, EventFacts, compute_conflict, read_message, event_facts}
use c_e.Meta.Decision.{
  MetaDecisionResult, World, EvaluateRequest, decide_on, evaluate, attempt, with_readings,
  with_facts, with_memory,
}
use c_e.Meta.Scores.{
  signals_in, risks_from, aggregate_of, build_weighted_scores, blend, with_reused, reused_risk_of,
  or_mean, scores_of, is_reused, totals_from,
}
use c_e.Meta.Outcomes.{evaluate_cases}

module _ {F : Type 0} ⦃o : Float F⦄ (laws : IsOrdered F) (b : Builtins F)
    (settings : Settings F) where
  AreInUnit : Dict F → Type 0
  AreInUnit = Holds (λ name x. InUnit x)

  insert-AreInUnit :
      (name : String) (x : F) (d : Dict F) → AreInUnit d → AreInUnit (insert name (unit_clamp x) d)
  unfolding AreInUnit
  insert-AreInUnit name x d h =
      insert-Holds (λ k y. InUnit y) name (unit_clamp x) d (clamp-InUnit laws x) h

  calibrate_from-AreInUnit :
      (scores : Dict F) (matrix : Dict (Criteria F)) (done : Dict F)
      → AreInUnit done
      → AreInUnit (calibrate_from scores matrix done)
  calibrate_from-AreInUnit [] matrix done h = h
  calibrate_from-AreInUnit ((id, score) ∷ scores) matrix done h =
      calibrate_from-AreInUnit scores matrix _ (insert-AreInUnit id _ done h)

  risks_from-AreInUnit :
      (trusts : Dict F) (readings : List (Reading F)) (done : Dict F)
      → AreInUnit done
      → AreInUnit (risks_from b settings trusts readings done)
  risks_from-AreInUnit trusts [] done h = h
  risks_from-AreInUnit trusts (r ∷ rest) done h =
      risks_from-AreInUnit trusts rest _ (insert-AreInUnit (r.sender +str "_risk") _ done h)

  aggregate_of-InUnit :
      (trusts : Dict F) (readings : List (Reading F))
      → InUnit (aggregate_of b settings trusts readings)
  unfolding aggregate_of
  aggregate_of-InUnit trusts readings =
      let (weighted, total) = totals_from b settings trusts readings (o.lit 0) (o.lit 0) in
      elim (Bool-cases (is_zero total)) [
        | inl none_trusted ↦ ground (arith, lit-InUnit laws 0)
        | inr some_trusted ↦ ground (arith, clamp-InUnit laws (o.div weighted total))
      ]

  one-AreInUnit : (name : String) (x : F) → InUnit x → AreInUnit ((name, x) ∷ [])
  unfolding AreInUnit
  one-AreInUnit name x h =
      insert-Holds (λ k y. InUnit y) name x [] h (λ k y e. absurd (none-ne-some e))

  if-AreInUnit :
      (test : Bool) (d e : Dict F) → AreInUnit d → AreInUnit e → AreInUnit (if test then d else e)
  if-AreInUnit true d e h k = h
  if-AreInUnit false d e h k = k

  blend-AreInUnit :
      (model_scores d : Dict F) → AreInUnit d → AreInUnit (blend b settings model_scores d)
  blend-AreInUnit model_scores d h =
      if-AreInUnit (is_empty model_scores) d _ h (insert-AreInUnit "model_blend" _ d h)

  reused_risk-InUnit : (case : Option (MemoryCase F)) → InUnit (reused_risk_of b settings case)
  reused_risk-InUnit none = clamp-InUnit laws _
  reused_risk-InUnit (some case) = clamp-InUnit laws _

  with_reused-AreInUnit :
      (reuse : ReuseDecision F) (d : Dict F)
      → AreInUnit d
      → AreInUnit (with_reused b settings reuse d)
  unfolding AreInUnit
  with_reused-AreInUnit reuse d h =
      insert-Holds (λ k y. InUnit y) "aggregate_risk" _ _ (clamp-InUnit laws _)
        (insert-Holds (λ k y. InUnit y) "reused_risk" _ d (reused_risk-InUnit reuse.matched_case) h)

  or_mean-AreInUnit :
      (readings : List (Reading F)) (d : Dict F)
      → AreInUnit d
      → AreInUnit (or_mean b settings readings d)
  or_mean-AreInUnit readings d h = if-AreInUnit _ _ d (insert-AreInUnit "aggregate_risk" _ d h) h

  scores_of-AreInUnit :
      (readings : List (Reading F)) (trusts model_scores : Dict F) (reuse : ReuseDecision F)
      → AreInUnit (scores_of b settings readings trusts model_scores reuse)
  unfolding scores_of build_weighted_scores
  scores_of-AreInUnit readings trusts model_scores reuse =
      let first =
        one-AreInUnit "aggregate_risk" (aggregate_of b settings trusts readings)
          (aggregate_of-InUnit trusts readings) in
      let own = blend-AreInUnit model_scores _ (risks_from-AreInUnit trusts readings _ first) in
      or_mean-AreInUnit readings _
        (if-AreInUnit (is_reused reuse.reuse_decision) _ _ (with_reused-AreInUnit reuse _ own) own)

  conflict-InUnit : (signals : List F) → InUnit (compute_conflict b signals)
  unfolding compute_conflict
  conflict-InUnit signals = elim (Bool-cases (leb 2 (length signals))) [
    | inl several ↦ rw (compute_conflict, several) (clamp-InUnit laws _)
    | inr few ↦ rw (compute_conflict, few) (lit-InUnit laws 0 (omega arith))
  ]

  decide_on-InUnit :
      (elapsed_ms : ℕ) (readings : List (Reading F)) (trust : TrustComputation F)
      (model_scores : Dict F) (facts : EventFacts F) (context : MemoryContext F) (deep : Bool)
      → let r = decide_on b settings elapsed_ms readings trust model_scores facts context deep in
        AreInUnit r.weighted_scores × AreInUnit r.agent_trust_scores × InUnit r.conflict_score
  unfolding decide_on calibrate AreInUnit
  decide_on-InUnit elapsed_ms readings trust model_scores facts context deep =
      let trusts = calibrate trust.agent_case_trust trust.trust_matrix in
      let scores = scores_of-AreInUnit readings trusts model_scores context.reuse in
      (
        if-AreInUnit (ltb settings.timeout_ms elapsed_ms) _ _
            (insert-AreInUnit "aggregate_risk" _ _ scores) scores,
        calibrate_from-AreInUnit trust.agent_case_trust trust.trust_matrix []
            (λ k y e. absurd (none-ne-some e)),
        conflict-InUnit (signals_in b settings readings),
      )

  memory_profiles :
      (elapsed_ms : ℕ) (req : EvaluateRequest F) (readings : List (Reading F))
      (trust : TrustComputation F) (facts : EventFacts F) (world : World F)
      (found : Option (MemoryContext F × List (MemoryCase F)))
      → (with_memory b settings elapsed_ms req readings trust facts world found).1.profiles
        ≡ world.profiles
  unfolding with_memory
  memory_profiles elapsed_ms req readings trust facts world none = refl
  memory_profiles elapsed_ms req readings trust facts world (some (context, cases)) = refl

  facts_profiles :
      (now : F) (elapsed_ms : ℕ) (req : EvaluateRequest F) (readings : List (Reading F))
      (trust : TrustComputation F) (world : World F) (facts : Option (EventFacts F))
      → (with_facts b settings now elapsed_ms req readings trust world facts).1.profiles
        ≡ world.profiles
  unfolding with_facts
  facts_profiles now elapsed_ms req readings trust world none = refl
  facts_profiles now elapsed_ms req readings trust world (some facts) =
      memory_profiles elapsed_ms req readings trust facts world _

  profiles-AreInRange :
      (now : F) (elapsed_ms : ℕ) (req : EvaluateRequest F) (world : World F)
      (readings : Option (List (Reading F)))
      → AreInRange world.profiles
      → AreInRange (with_readings b settings now elapsed_ms req world readings).1.profiles
  unfolding with_readings
  profiles-AreInRange now elapsed_ms req world none h = h
  profiles-AreInRange now elapsed_ms req world (some readings) h =
      let (trust, profiles) = compute_batch b.sum (map (λ r. r.input) readings) world.profiles in
      let same =
        facts_profiles now elapsed_ms req readings trust (record world { profiles = profiles })
          (event_facts b req.event) in
      subst AreInRange (sym same)
        (compute_batch-AreInRange laws b.sum (map (λ r. r.input) readings) world.profiles h)

  -- Given the order laws of floats: whatever the messages, the event and the memory hold, and on
  -- every path, the timeout and the fallback included, each weighted score of a result, each
  -- agent's trust score and the conflict score are between 0 and 1, and the profiles of the agents
  -- stay in range if they were.
  pub evaluate-InUnit :
      (now : F) (elapsed_ms : ℕ) (req : EvaluateRequest F) (world : World F)
      (r : MetaDecisionResult F)
      → AreInRange world.profiles
      → (evaluate b settings now elapsed_ms req world).0 ≡ some r
      → Holds (λ name x. InUnit x) r.weighted_scores
        × Holds (λ agent x. InUnit x) r.agent_trust_scores
        × InUnit r.conflict_score
        × AreInRange (evaluate b settings now elapsed_ms req world).1.profiles
  unfolding evaluate attempt AreInUnit
  evaluate-InUnit now elapsed_ms req world r h e =
      let kept =
        profiles-AreInRange now elapsed_ms req world
          (map_option (read_message b) req.agent_messages) h in
      elim (evaluate_cases b settings now elapsed_ms req world r e) [
        | inl decided ↦
            let (scores, trusts, conflict) =
              decide_on-InUnit elapsed_ms decided.readings
                (compute_batch b.sum (map (λ x. x.input) decided.readings) world.profiles).0
                req.model_scores decided.facts decided.context decided.deep in
            rw decided.result (scores, trusts, conflict, kept)
        | inr fell ↦ rw fell.result (
          one-AreInUnit "aggregate_risk" _ (clamp-InUnit laws _),
          (λ k y e. absurd (none-ne-some e)),
          lit-InUnit laws 1_000_000 (omega arith),
          kept,
        )
      ]
