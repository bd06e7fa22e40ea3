-- ===== src/Policy/DryRun.antt =====
-- The first two guards of the policy engine: dry runs and capability maturity.
use mathlib.Core.Option.{some-injective}
use c_e.Common.{true, false, String, some, ◌≡◌, arith}
use c_e.Common.Float.{Float}
use c_e.Core.Contracts.{ExecutionDecision, ExecutionGuardrails, RiskEnvelope, is_read_only}
use c_e.Core.Degraded.{maturity_allowed_in_environment}
use c_e.Core.Maturity.{CapabilityDescriptor, capability_of}
use c_e.Policy.{PolicyDecision, evaluate_capability, evaluate}

module _ {F : Type 0} ⦃o : Float F⦄ (e : RiskEnvelope F) (g : ExecutionGuardrails F)
    (capability_name : String) {c : CapabilityDescriptor} {d : PolicyDecision} where
  decision_of_capability :
      capability_of capability_name ≡ some c
      → evaluate e g capability_name ≡ some d
      → evaluate_capability e g c ≡ d
  unfolding evaluate
  decision_of_capability found run = some-injective _ _ (rw (found, evaluate) at run)

  -- A dry run of any action but a read is PREPARE_ONLY, whatever the capability, the environment,
  -- the scopes and the dependencies are.
  pub dry_run_prepares :
      capability_of capability_name ≡ some c
      → evaluate e g capability_name ≡ some d
      → is_read_only e.action_class ≡ false
      → e.dry_run ≡ true
      → d.decision ≡ ExecutionDecision.prepare_only
  unfolding evaluate_capability
  dry_run_prepares found run write dry = ground (arith, decision_of_capability found run)

  -- Outside dry runs a capability that is not mature enough for the environment is denied.
  pub immature_denied :
      capability_of capability_name ≡ some c
      → evaluate e g capability_name ≡ some d
      → e.dry_run ≡ false
      → maturity_allowed_in_environment c.maturity e.environment ≡ false
      → d.decision ≡ ExecutionDecision.denied
  unfolding evaluate_capability
  immature_denied found run real low = ground (arith, decision_of_capability found run)
