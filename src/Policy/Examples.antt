-- ===== src/Policy/Examples.antt =====
-- Verdicts of the policy engine on concrete envelopes.
use c_e.Core.Degraded.{maturity_allowed_in_environment, graph_degraded, block_irreversible_actions}
use c_e.Common.{true, false, String, [], ◌∷◌, ◌≡◌, refl, ◌↔◌}
use c_e.Common.Float.{Micro, micro_float}
use c_e.Core.Contracts.{
  ActionClass, CapabilityMaturity, DependencyHealthSnapshot, DependencyState, ExecutionDecision,
  ExecutionGuardrails, RiskEnvelope,
}
use c_e.Core.Maturity.{CapabilityDescriptor, capability_of}
use c_e.Policy.{
  PolicyDecision, evaluate, evaluate_capability, is_sensitive, check_limits, check_caller, conclude,
  is_containment, weigh_asset,
}
use c_e.Policy.Allowed.{IsCleared, irreversible_allowed_iff}
use c_e.Policy.Flags.{IsConsistent, evaluate-IsConsistent}
use c_e.Policy.Production.{production_denied}

abbrev healthy : DependencyHealthSnapshot
healthy = record {
  nats = DependencyState.healthy;
  neo4j = DependencyState.healthy;
  bloodhound = DependencyState.healthy;
  vault = DependencyState.healthy;
  spire = DependencyState.unknown;
  approval = DependencyState.healthy;
  sentinel = DependencyState.healthy;
  external_llm = DependencyState.healthy;
}

abbrev envelope : ActionClass → (environment : String) → RiskEnvelope Micro
envelope action_class environment = record {
  entity_id = "host-1";
  entity_type = "machine";
  action = "execute_quarantine";
  action_class = action_class;
  trust_score = micro_float.lit 15_000_000;
  threat_level = 5;
  evidence_count = 3;
  strong_signal_count = 2;
  distinct_sources = 2;
  blast_radius = 4;
  crown_jewels_exposed = false;
  criticality = "normal";
  scopes = "admin:write" ∷ [];
  environment = environment;
  dry_run = false;
  maturity = CapabilityMaturity.beta;
  derived_signals = [];
  dependencies = healthy;
  evidences = [];
}

abbrev guardrails : ActionClass → ExecutionGuardrails Micro
guardrails action_class = record {
  action_class = action_class;
  reversible = true;
  approval_required = false;
  forensic_required = true;
  min_sources = 2;
  min_trust_score = micro_float.lit 0;
  block_if_critical_dependencies_down = true;
  block_if_maturity_below = CapabilityMaturity.preprod_ready;
}

abbrev quarantine_capability : CapabilityDescriptor
quarantine_capability = record { name = "local_quarantine"; maturity = CapabilityMaturity.beta }

abbrev verdict : ActionClass → String → PolicyDecision
verdict action_class environment =
    evaluate_capability (envelope action_class environment) (guardrails action_class)
      quarantine_capability

irreversible_allowed_iff_example :
    ((verdict ActionClass.irreversible "preprod").decision ≡ ExecutionDecision.allowed)
    ↔ IsCleared
        (envelope ActionClass.irreversible "preprod")
        (guardrails ActionClass.irreversible)
        quarantine_capability
unfolding evaluate capability_of
irreversible_allowed_iff_example =
    irreversible_allowed_iff (envelope ActionClass.irreversible "preprod")
      (guardrails ActionClass.irreversible) "local_quarantine" refl refl refl

evaluate-IsConsistent_example : IsConsistent (verdict ActionClass.irreversible "preprod")
unfolding evaluate capability_of
evaluate-IsConsistent_example =
    evaluate-IsConsistent (envelope ActionClass.irreversible "preprod")
      (guardrails ActionClass.irreversible) "local_quarantine" refl

production_denied_example :
    (verdict ActionClass.irreversible "prod").decision ≡ ExecutionDecision.denied
unfolding evaluate capability_of
production_denied_example =
    production_denied (envelope ActionClass.irreversible "prod")
      (guardrails ActionClass.irreversible) "local_quarantine" refl refl refl

irreversible_runs :
    (verdict ActionClass.irreversible "preprod").decision ≡ ExecutionDecision.allowed
unfolding evaluate_capability maturity_allowed_in_environment block_irreversible_actions
    check_caller check_limits is_containment weigh_asset is_sensitive conclude graph_degraded
irreversible_runs = refl
