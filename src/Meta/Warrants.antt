-- ===== src/Meta/Warrants.antt =====
-- When an evaluation asks for deep analysis, and which agents it selects.
use c_e.Common.{
  ℕ, Bool, true, false, not, ◌&&◌, String, List, [], ◌∷◌, Option, none, some, ◌≡◌, refl, inl, inr,
  arith, Bool-cases, all, all-filter, all-filter_self, filter, contains, subst, sym,
}
use c_e.Common.Dict.{Dict}
use c_e.Common.Float.{Float}
use c_e.Meta.Reuse.{ReuseDecision}
use c_e.Meta.Trust.{TrustComputation, calibrate}
use c_e.Meta.Linker.{Builtins, Settings, MemoryContext}
use c_e.Meta.Messages.{Reading, EventFacts}
use c_e.Meta.Decision.{MetaDecisionResult, World, EvaluateRequest, decide_on, evaluate}
use c_e.Meta.Scores.{senders_in, is_trusted, build_weighted_scores, selected_of, is_reused}
use c_e.Meta.Outcomes.{evaluate_cases}

-- The decision to reuse a case passes over the agent.
abbrev pub is_bypassed : {F : Type 0} → Option (ReuseDecision F) → String → Bool
is_bypassed none id = false
is_bypassed (some reuse) id = is_reused reuse.reuse_decision && contains id reuse.agents_to_bypass

all-true {ℓ} : {A : Type ℓ} (xs : List A) → all (λ x. true) xs ≡ true
all-true [] = refl
all-true (x ∷ xs) = all-true xs

module _ {F : Type 0} ⦃o : Float F⦄ (b : Builtins F) (settings : Settings F) where
  selected_trusted :
      (readings : List (Reading F)) (trusts : Dict F) (reuse : ReuseDecision F)
      → all (is_trusted b settings trusts) (selected_of b settings readings trusts reuse) ≡ true
  unfolding selected_of build_weighted_scores
  selected_trusted readings trusts reuse =
      let senders = senders_in b settings readings in
      let own = all-filter_self (is_trusted b settings trusts) senders in
      elim (Bool-cases (is_reused reuse.reuse_decision)) [
        | inl reused ↦
            rw (selected_of, reused)
              (all-filter (is_trusted b settings trusts)
                (λ id. not (contains id reuse.agents_to_bypass))
                (filter (is_trusted b settings trusts) senders) own)
        | inr not_reused ↦ rw (selected_of, not_reused) own
      ]

  selected_not_bypassed :
      (readings : List (Reading F)) (trusts : Dict F) (reuse : ReuseDecision F)
      → all (λ id. not (is_bypassed (some reuse) id)) (selected_of b settings readings trusts reuse)
        ≡ true
  unfolding selected_of build_weighted_scores
  selected_not_bypassed readings trusts reuse =
      let own = filter (is_trusted b settings trusts) (senders_in b settings readings) in
      elim (Bool-cases (is_reused reuse.reuse_decision)) [
        | inl reused ↦
            rw (selected_of, reused)
              (all-filter_self (λ id. not (contains id reuse.agents_to_bypass)) own)
        | inr not_reused ↦ rw (selected_of, not_reused) (all-true own)
      ]

  abbrev SelectsTrusted : MetaDecisionResult F → Type 0
  SelectsTrusted r =
      (all (is_trusted b settings r.agent_trust_scores) r.selected_agents ≡ true)
      × (all (λ id. not (is_bypassed r.reuse id)) r.selected_agents ≡ true)

  decide_on-SelectsTrusted :
      (elapsed_ms : ℕ) (readings : List (Reading F)) (trust : TrustComputation F)
      (model_scores : Dict F) (facts : EventFacts F) (context : MemoryContext F) (deep : Bool)
      → let r = decide_on b settings elapsed_ms readings trust model_scores facts context deep in
        r.degraded_mode ≡ false → SelectsTrusted r
  unfolding decide_on
  decide_on-SelectsTrusted elapsed_ms readings trust model_scores facts context deep timely =
      let trusts = calibrate trust.agent_case_trust trust.trust_matrix in
      rw (decide_on, timely)
        (
          selected_trusted readings trusts context.reuse,
          selected_not_bypassed readings trusts context.reuse,
        )

  -- Unless an evaluation is degraded, each agent it selects is trusted up to the threshold by the
  -- result's own trust scores, and the decision to reuse a case does not pass over it.
  pub selected_agents_lem :
      (now : F) (elapsed_ms : ℕ) (req : EvaluateRequest F) (world : World F)
      (r : MetaDecisionResult F)
      → (evaluate b settings now elapsed_ms req world).0 ≡ some r
      → r.degraded_mode ≡ false
      → (all (is_trusted b settings r.agent_trust_scores) r.selected_agents ≡ true)
        × (all (λ id. not (is_bypassed r.reuse id)) r.selected_agents ≡ true)
  selected_agents_lem now elapsed_ms req world r e timely =
      elim (evaluate_cases b settings now elapsed_ms req world r e) [
        | inl decided ↦
            subst (λ x. x.degraded_mode ≡ false → SelectsTrusted x) (sym decided.result)
              (decide_on-SelectsTrusted elapsed_ms decided.readings _ req.model_scores decided.facts
                decided.context decided.deep)
              timely
        | inr fell ↦ ground (arith, fell.result)
      ]
