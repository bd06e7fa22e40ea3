-- ===== src/Core/Contracts.antt =====
-- shared/cortex-core/cortex_core/contracts.py. Fields that pydantic bounds below by 0 are naturals;
-- `derived_signals` holds the floats that `float(...)` reads out of it.
use c_e.Common.{ℕ, Bool, true, false, List, String, ◌||◌}
use c_e.Common.Dict.{Dict}

pub data CapabilityMaturity : Type 0 where
  production_ready preprod_ready beta experimental stubbed : CapabilityMaturity

pub data DependencyState : Type 0 where
  healthy degraded unavailable unknown : DependencyState

pub data ActionClass : Type 0 where
  read_only advisory prepare_only execute_with_approval irreversible blocked_in_prod : ActionClass

pub data ExecutionMode : Type 0 where
  dry_run prepare execute rollback : ExecutionMode

pub data ExecutionDecision : Type 0 where
  allowed denied approval_required prepare_only blocked_due_to_degraded_mode : ExecutionDecision

pub data ResponseEligibility : Type 0 where
  nothing monitor_only reversible_only approval_gated autonomous_allowed : ResponseEligibility

abbrev pub maturity_value : CapabilityMaturity → String
maturity_value CapabilityMaturity.production_ready = "production_ready"
maturity_value CapabilityMaturity.preprod_ready = "preprod_ready"
maturity_value CapabilityMaturity.beta = "beta"
maturity_value CapabilityMaturity.experimental = "experimental"
maturity_value CapabilityMaturity.stubbed = "stubbed"

-- `== DependencyState.UNAVAILABLE` and `== DependencyState.HEALTHY`
abbrev pub is_unavailable : DependencyState → Bool
is_unavailable DependencyState.unavailable = true
is_unavailable _ = false

abbrev pub is_healthy : DependencyState → Bool
is_healthy DependencyState.healthy = true
is_healthy _ = false

abbrev pub is_read_only : ActionClass → Bool
is_read_only ActionClass.read_only = true
is_read_only _ = false

abbrev pub is_prepare_only : ActionClass → Bool
is_prepare_only ActionClass.prepare_only = true
is_prepare_only _ = false

abbrev pub is_irreversible : ActionClass → Bool
is_irreversible ActionClass.irreversible = true
is_irreversible _ = false

abbrev pub needs_approval : ActionClass → Bool
needs_approval ActionClass.execute_with_approval = true
needs_approval _ = false

pub record SecurityEvidence (F : Type 0) : Type 0 where
  pub entity_id : String
  pub source : String
  pub signal_type : String
  pub severity : F
  pub confidence : F
  pub timestamp : F
  pub ttl : ℕ

pub record DependencyHealthSnapshot : Type 0 where
  pub nats : DependencyState
  pub neo4j : DependencyState
  pub bloodhound : DependencyState
  pub vault : DependencyState
  pub spire : DependencyState
  pub approval : DependencyState
  pub sentinel : DependencyState
  pub external_llm : DependencyState

unfoldable pub critical_degraded : DependencyHealthSnapshot → Bool
critical_degraded s =
    is_unavailable s.nats || (is_unavailable s.approval || is_unavailable s.sentinel)

pub record ExecutionGuardrails (F : Type 0) : Type 0 where
  pub action_class : ActionClass
  pub reversible : Bool
  pub approval_required : Bool
  pub forensic_required : Bool
  pub min_sources : ℕ
  pub min_trust_score : F
  pub block_if_critical_dependencies_down : Bool
  pub block_if_maturity_below : CapabilityMaturity

pub record RiskEnvelope (F : Type 0) : Type 0 where
  pub entity_id : String
  pub entity_type : String
  pub action : String
  pub action_class : ActionClass
  pub trust_score : F
  pub threat_level : ℕ
  pub evidence_count : ℕ
  pub strong_signal_count : ℕ
  pub distinct_sources : ℕ
  pub blast_radius : ℕ
  pub crown_jewels_exposed : Bool
  pub criticality : String
  pub scopes : List String
  pub environment : String
  pub dry_run : Bool
  pub maturity : CapabilityMaturity
  pub derived_signals : Dict F
  pub dependencies : DependencyHealthSnapshot
  pub evidences : List (SecurityEvidence F)
