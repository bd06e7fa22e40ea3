-- ===== src/Core/Degraded.antt =====
-- shared/cortex-core/cortex_core/degraded.py: what degraded dependencies rule out.
use c_e.Common.{Bool, true, false, not, ◌||◌, String, if◌then◌else◌, ◌≡◌, arith, str_eq}
use c_e.Core.Contracts.{
  CapabilityMaturity, DependencyHealthSnapshot, is_unavailable, is_healthy, critical_degraded,
}

unfoldable pub block_irreversible_actions : DependencyHealthSnapshot → Bool
block_irreversible_actions s =
    if is_unavailable s.approval
    then true
    else if is_unavailable s.nats
    then true
    else if is_unavailable s.sentinel
    then true
    else false

unfoldable pub secret_rotation_allowed : DependencyHealthSnapshot → Bool
secret_rotation_allowed s = is_healthy s.vault

unfoldable pub graph_degraded : DependencyHealthSnapshot → Bool
graph_degraded s = not (is_healthy s.neo4j) || not (is_healthy s.bloodhound)

pub external_llm_advisory_only : DependencyHealthSnapshot → Bool
external_llm_advisory_only s = not (is_healthy s.external_llm)

-- `maturity in {PRODUCTION_READY}`, `maturity in {PRODUCTION_READY, PREPROD_READY, BETA}`, and
-- `maturity != STUBBED`
abbrev pub is_production_ready : CapabilityMaturity → Bool
is_production_ready CapabilityMaturity.production_ready = true
is_production_ready _ = false

abbrev is_beta_or_better : CapabilityMaturity → Bool
is_beta_or_better CapabilityMaturity.experimental = false
is_beta_or_better CapabilityMaturity.stubbed = false
is_beta_or_better _ = true

abbrev is_not_stubbed : CapabilityMaturity → Bool
is_not_stubbed CapabilityMaturity.stubbed = false
is_not_stubbed _ = true

unfoldable pub maturity_allowed_in_environment : CapabilityMaturity → String → Bool
maturity_allowed_in_environment m environment =
    if str_eq environment "prod"
    then is_production_ready m
    else if str_eq environment "preprod"
    then is_beta_or_better m
    else is_not_stubbed m

-- The two readings of critical degraded mode, `DependencyHealthSnapshot.critical_degraded` and
-- `block_irreversible_actions`, agree on every snapshot.
block_irreversible_actions-eq-critical_degraded :
    (s : DependencyHealthSnapshot) → block_irreversible_actions s ≡ critical_degraded s
unfolding block_irreversible_actions critical_degraded
block_irreversible_actions-eq-critical_degraded s = ground arith
