-- ===== src/Core/Maturity.antt =====
-- shared/cortex-core/cortex_core/maturity.py: the registry of capabilities.
use c_e.Common.{String, List, [], ◌∷◌, Option, none, some, if◌then◌else◌}
use Prim.Native.String
use c_e.Common.Dict.{Dict, lookup}
use c_e.Core.Contracts.{CapabilityMaturity, maturity_value}
use c_e.Core.Degraded.{is_production_ready}

pub record CapabilityDescriptor : Type 0 where
  pub name : String
  pub maturity : CapabilityMaturity

abbrev descriptor : String → CapabilityMaturity → String × CapabilityDescriptor
descriptor name maturity = (name, record { name = name; maturity = maturity })

abbrev pub capability_registry : Dict CapabilityDescriptor
capability_registry =
    descriptor "ad_read_validations" CapabilityMaturity.preprod_ready
    ∷ descriptor "ad_destructive_writes" CapabilityMaturity.stubbed
    ∷ descriptor "sot_issue" CapabilityMaturity.preprod_ready
    ∷ descriptor "local_quarantine" CapabilityMaturity.beta
    ∷ descriptor "irreversible_containment" CapabilityMaturity.experimental
    ∷ descriptor "decision_committee" CapabilityMaturity.beta
    ∷ descriptor "model_governance_writes" CapabilityMaturity.beta
    ∷ descriptor "bloodhound_exposure_analysis" CapabilityMaturity.preprod_ready
    ∷ []

-- `CAPABILITY_REGISTRY[name]`; `none` is the `KeyError`.
unfoldable pub capability_of : String → Option CapabilityDescriptor
capability_of name = lookup name capability_registry

-- The names of `PRODUCTION_CRITICAL_CAPABILITIES` as `sorted` returns them.
abbrev production_critical_capabilities : List String
production_critical_capabilities =
    "ad_destructive_writes" ∷ "ad_read_validations" ∷ "bloodhound_exposure_analysis"
    ∷ "decision_committee" ∷ "irreversible_containment" ∷ "local_quarantine"
    ∷ "model_governance_writes" ∷ "sot_issue" ∷ []

abbrev label : String → CapabilityDescriptor → String
label name c = String.◌++◌ name (String.◌++◌ "=" (maturity_value c.maturity))

-- The loop of `production_maturity_blockers`; `none` is the `KeyError` of a missing name.
unfoldable pub maturity_blockers : Dict CapabilityDescriptor → List String → Option (List String)
maturity_blockers registry [] = some []
maturity_blockers registry (name ∷ names) = elim (lookup name registry) [
  | none ↦ none
  | some c ↦ elim (maturity_blockers registry names) [
    | none ↦ none
    | some rest ↦ some (if is_production_ready c.maturity then rest else label name c ∷ rest)
  ]
]

production_maturity_blockers : Option (List String)
unfolding maturity_blockers
production_maturity_blockers =
    maturity_blockers capability_registry production_critical_capabilities
