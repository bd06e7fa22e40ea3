-- ===== src/Policy/Allowed.antt =====
-- What an ALLOWED verdict of the policy engine guarantees, by class of action.
use c_e.Common.{
  true, false, String, List, some, ◌≡◌, ◌≢◌, ◌≤◌, ◌↔◌, ◌⊎◌, inl, inr, Option-cases, none-ne-some,
  arith, contains, str_eq,
}
use mathlib.Core.Option.{some-injective}
use mathlib.Core.Path.{subst}
use c_e.Common.Float.{Float}
use c_e.Core.Contracts.{
  ActionClass, ExecutionDecision, ExecutionGuardrails, RiskEnvelope, is_unavailable, is_healthy,
}
use c_e.Core.Degraded.{
  block_irreversible_actions, secret_rotation_allowed, graph_degraded,
  maturity_allowed_in_environment,
}
use c_e.Core.Maturity.{CapabilityDescriptor, capability_of}
use c_e.Policy.{
  PolicyDecision, conclude, weigh_asset, check_caller, check_limits, evaluate_capability, evaluate,
  is_sensitive, is_containment, uses_graph, admin_compromise_score,
}

module _ {F : Type 0} ⦃o : Float F⦄ (e : RiskEnvelope F) (g : ExecutionGuardrails F) where
  -- The facts about the asset and the graph that clear an irreversible action.
  pub record IsAssetCleared : Type 0 where
    pub no_crown_jewels : e.crown_jewels_exposed ≡ false
    pub not_sensitive : is_sensitive e.criticality ≡ false
    pub no_standing_approval : g.approval_required ≡ false
    pub graph_seen :
        (uses_graph e.action ≡ false)
        ⊎ ((is_healthy e.dependencies.neo4j ≡ true) × (is_healthy e.dependencies.bloodhound ≡ true))

  pub record IsCallerCleared : Type 0 where
    pub scope : contains "admin:write" e.scopes ≡ true
    pub admin_trusted : o.le (o.lit 85_000_000) (admin_compromise_score e) ≡ false

  pub record IsWithinLimits : Type 0 where
    pub secrets :
        (str_eq e.action "execute_secret_rotation" ≡ false)
        ⊎ (is_healthy e.dependencies.vault ≡ true)
    pub small_blast : (is_containment e.action ≡ false) ⊎ (e.blast_radius ≤ 25)
    pub enough_sources : g.min_sources ≤ e.strong_signal_count

  -- What clears an irreversible action to run with no approval.
  pub record IsCleared (c : CapabilityDescriptor) : Type 0 where
    pub not_dry_run : e.dry_run ≡ false
    pub mature : maturity_allowed_in_environment c.maturity e.environment ≡ true
    pub approval_up : is_unavailable e.dependencies.approval ≡ false
    pub nats_up : is_unavailable e.dependencies.nats ≡ false
    pub sentinel_up : is_unavailable e.dependencies.sentinel ≡ false
    pub caller : IsCallerCleared
    pub limits : IsWithinLimits
    pub asset : IsAssetCleared

  conclude_allowed_iff :
      (rationale : List String)
      → e.action_class ≡ ActionClass.irreversible
      → ((conclude e g rationale).decision ≡ ExecutionDecision.allowed) ↔ (
          (g.approval_required ≡ false)
          × ((uses_graph e.action ≡ false)
              ⊎ ((is_healthy e.dependencies.neo4j ≡ true)
                  × (is_healthy e.dependencies.bloodhound ≡ true))))
  unfolding conclude graph_degraded
  conclude_allowed_iff rationale i = ground arith

  weigh_allowed_iff :
      e.action_class ≡ ActionClass.irreversible
      → ((weigh_asset e g).decision ≡ ExecutionDecision.allowed) ↔ IsAssetCleared
  unfolding weigh_asset
  weigh_allowed_iff i = grind (arith, conclude_allowed_iff)

  limits_allowed_iff :
      e.action_class ≡ ActionClass.irreversible
      → ((check_limits e g).decision ≡ ExecutionDecision.allowed)
        ↔ (IsWithinLimits × IsAssetCleared)
  unfolding check_limits secret_rotation_allowed
  limits_allowed_iff i = ground (arith, weigh_allowed_iff i)

  caller_allowed_iff :
      e.action_class ≡ ActionClass.irreversible
      → ((check_caller e g).decision ≡ ExecutionDecision.allowed)
        ↔ (IsCallerCleared × IsWithinLimits × IsAssetCleared)
  unfolding check_caller
  caller_allowed_iff i = ground (arith, limits_allowed_iff i)

  capability_allowed_iff :
      (c : CapabilityDescriptor)
      → e.action_class ≡ ActionClass.irreversible
      → ((evaluate_capability e g c).decision ≡ ExecutionDecision.allowed) ↔ IsCleared c
  unfolding evaluate_capability block_irreversible_actions
  capability_allowed_iff c i = ground (arith, caller_allowed_iff i)

  -- For an irreversible action of a registered capability, the verdict is ALLOWED exactly when the
  -- action is no dry run; the capability is mature enough for the environment; approval, NATS and
  -- Sentinel are not unavailable; the caller holds admin:write and the admin-compromise score does
  -- not reach 85; the vault is healthy if it is a secret rotation, and the blast radius is at most 25
  -- if it is a containment; the strong signals reach the guardrails' least number of sources; no
  -- crown jewels are exposed, the criticality is not sensitive, the guardrails ask for no standing
  -- approval; and, if the action uses the graph, Neo4j and BloodHound are healthy.
  pub irreversible_allowed_iff :
      (capability_name : String) {c : CapabilityDescriptor} {d : PolicyDecision}
      → e.action_class ≡ ActionClass.irreversible
      → capability_of capability_name ≡ some c
      → evaluate e g capability_name ≡ some d
      → (d.decision ≡ ExecutionDecision.allowed) ↔ IsCleared c
  unfolding evaluate
  irreversible_allowed_iff name {c} {d} i found run =
      subst (λ v. (v.decision ≡ ExecutionDecision.allowed) ↔ IsCleared c)
        (some-injective _ _ (rw (found, evaluate) at run)) (capability_allowed_iff c i)

  conclude_needs_approval :
      (rationale : List String)
      → e.action_class ≡ ActionClass.execute_with_approval
      → (conclude e g rationale).decision ≢ ExecutionDecision.allowed
  unfolding conclude
  conclude_needs_approval rationale i = ground arith

  weigh_needs_approval :
      e.action_class ≡ ActionClass.execute_with_approval
      → (weigh_asset e g).decision ≢ ExecutionDecision.allowed
  unfolding weigh_asset
  weigh_needs_approval i = grind (arith, conclude_needs_approval)

  limits_needs_approval :
      e.action_class ≡ ActionClass.execute_with_approval
      → (check_limits e g).decision ≢ ExecutionDecision.allowed
  unfolding check_limits
  limits_needs_approval i = ground (arith, weigh_needs_approval i)

  caller_needs_approval :
      e.action_class ≡ ActionClass.execute_with_approval
      → (check_caller e g).decision ≢ ExecutionDecision.allowed
  unfolding check_caller
  caller_needs_approval i = ground (arith, limits_needs_approval i)

  capability_needs_approval :
      (c : CapabilityDescriptor)
      → e.action_class ≡ ActionClass.execute_with_approval
      → (evaluate_capability e g c).decision ≢ ExecutionDecision.allowed
  unfolding evaluate_capability
  capability_needs_approval c i = ground (arith, caller_needs_approval i)

  -- An action of the class EXECUTE_WITH_APPROVAL is never allowed outright, whatever the
  -- capability, the environment, the scopes and the guardrails are.
  approval_class_never_allowed :
      (capability_name : String) {d : PolicyDecision}
      → e.action_class ≡ ActionClass.execute_with_approval
      → evaluate e g capability_name ≡ some d
      → d.decision ≢ ExecutionDecision.allowed
  unfolding evaluate
  approval_class_never_allowed name i h = elim (Option-cases (capability_of name)) [
    | inl e₀ ↦ absurd (none-ne-some (rw (e₀, evaluate) at h))
    | inr (c, e₁) ↦
        subst (λ v. v.decision ≢ ExecutionDecision.allowed)
          (some-injective _ _ (rw (e₁, evaluate) at h)) (capability_needs_approval c i)
  ]
