-- ===== src/Policy/Flags.antt =====
-- The flags, reasons and blockers of every verdict agree with its decision.
use c_e.Common.{
  Bool, true, false, String, List, some, ◌≡◌, refl, arith, is_empty, Option-cases, inl, inr,
  none-ne-some, ◌&&◌, ◌++◌, ◌∷◌, [],
}
use mathlib.Core.Option.{some-injective}
use mathlib.Core.Path.{subst}
use c_e.Common.Float.{Float}
use c_e.Core.Contracts.{ExecutionDecision, ExecutionGuardrails, RiskEnvelope}
use c_e.Core.Maturity.{CapabilityDescriptor, capability_of}
use c_e.Policy.{
  PolicyDecision, conclude, weigh_asset, check_caller, check_limits, evaluate_capability, evaluate,
}

abbrev is_refusal : ExecutionDecision → Bool
is_refusal ExecutionDecision.denied = true
is_refusal ExecutionDecision.blocked_due_to_degraded_mode = true
is_refusal _ = false

abbrev asks_approval : ExecutionDecision → Bool
asks_approval ExecutionDecision.approval_required = true
asks_approval _ = false

abbrev only_prepares : ExecutionDecision → Bool
only_prepares ExecutionDecision.prepare_only = true
only_prepares _ = false

pub record IsConsistent (d : PolicyDecision) : Type 0 where
  pub approval : d.approval_required ≡ asks_approval d.decision
  pub prepare : d.prepare_only ≡ only_prepares d.decision
  pub explained : is_empty d.rationale ≡ false
  pub refusal_named : is_refusal d.decision && is_empty d.blocked_by ≡ false

append-not_empty : (xs : List String) (x : String) → is_empty (xs ++ (x ∷ [])) ≡ false
append-not_empty [] x = refl
append-not_empty (y ∷ xs) x = refl

module _ {F : Type 0} ⦃o : Float F⦄ (e : RiskEnvelope F) (g : ExecutionGuardrails F) where
  conclude-IsConsistent : (rationale : List String) → IsConsistent (conclude e g rationale)
  unfolding conclude
  conclude-IsConsistent rationale = grind (arith, append-not_empty)

  weigh_asset-IsConsistent : IsConsistent (weigh_asset e g)
  unfolding weigh_asset
  weigh_asset-IsConsistent = grind (arith, conclude-IsConsistent, append-not_empty)

  check_limits-IsConsistent : IsConsistent (check_limits e g)
  unfolding check_limits
  check_limits-IsConsistent = ground (arith, weigh_asset-IsConsistent)

  check_caller-IsConsistent : IsConsistent (check_caller e g)
  unfolding check_caller
  check_caller-IsConsistent = ground (arith, check_limits-IsConsistent)

  capability-IsConsistent : (c : CapabilityDescriptor) → IsConsistent (evaluate_capability e g c)
  unfolding evaluate_capability
  capability-IsConsistent c = ground (arith, check_caller-IsConsistent)

  -- Every verdict sets `approval_required` and `prepare_only` exactly when its decision says so,
  -- gives a reason, and names a blocker if it refuses.
  pub evaluate-IsConsistent :
      (capability_name : String) {d : PolicyDecision}
      → evaluate e g capability_name ≡ some d
      → IsConsistent d
  unfolding evaluate
  evaluate-IsConsistent name h = elim (Option-cases (capability_of name)) [
    | inl e₀ ↦ absurd (none-ne-some (rw (e₀, evaluate) at h))
    | inr (c, e₁) ↦
        subst IsConsistent (some-injective _ _ (rw (e₁, evaluate) at h)) (capability-IsConsistent c)
  ]
