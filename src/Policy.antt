-- ===== src/Policy.antt =====
-- services/cortex-policy-engine/cortex_policy_engine/engine.py: the ladder of guards that decides
-- whether an action may run. `none` is the `KeyError` of an unregistered capability.
use Prim.Native.String
use c_e.Common.{
  ℕ, Bool, true, false, not, ◌&&◌, ◌||◌, String, List, [], ◌∷◌, ◌++◌, Option, none, some, ltb,
  if◌then◌else◌, str_eq, contains, is_empty,
}
use c_e.Common.Dict.{lookup, get_or}
use c_e.Common.Float.{Float}
use c_e.Core.Contracts.{
  ActionClass, ExecutionDecision, ExecutionGuardrails, RiskEnvelope, maturity_value, is_read_only,
  is_prepare_only, is_irreversible, needs_approval,
}
use c_e.Core.Degraded.{
  block_irreversible_actions, secret_rotation_allowed, graph_degraded, external_llm_advisory_only,
  maturity_allowed_in_environment,
}
use c_e.Core.Maturity.{CapabilityDescriptor, capability_of}
pub mod Allowed
pub mod Flags
pub mod Production
pub mod DryRun
pub mod Examples

pub record PolicyDecision : Type 0 where
  pub decision : ExecutionDecision
  pub rationale : List String
  pub approval_required : Bool
  pub prepare_only : Bool
  pub forensic_required : Bool
  pub blocked_by : List String

-- `{EXECUTE_WITH_APPROVAL, IRREVERSIBLE}`, `{"high", "critical"}` and the sets of action names.
abbrev is_execution : ActionClass → Bool
is_execution c = needs_approval c || is_irreversible c

pub is_sensitive : String → Bool
is_sensitive criticality = contains criticality ("high" ∷ "critical" ∷ [])

pub is_containment : String → Bool
is_containment action =
    contains action ("execute_quarantine" ∷ "execute_irreversible_containment" ∷ [])

unfoldable pub uses_graph : String → Bool
uses_graph action =
    contains action
      ("prepare_quarantine" ∷ "execute_quarantine" ∷ "execute_irreversible_containment" ∷ [])

-- `rationale or [default]`
abbrev pub or_default : List String → String → List String
or_default rationale default = if is_empty rationale then default ∷ [] else rationale

module _ {F : Type 0} ⦃o : Float F⦄ where
  open o use {lit, le, lt}

  abbrev pub admin_compromise_score : RiskEnvelope F → F
  admin_compromise_score e = get_or "admin_compromise_score" (lit 0) e.derived_signals

  abbrev insider_decay_score : RiskEnvelope F → F
  insider_decay_score e = get_or "insider_trust_decay" (lit 0) e.derived_signals

  -- The end of `evaluate`, from the degraded graph on.
  pub conclude : RiskEnvelope F → ExecutionGuardrails F → List String → PolicyDecision
  conclude e g rationale =
      if graph_degraded e.dependencies && uses_graph e.action
      then record {
        decision = ExecutionDecision.prepare_only;
        rationale = rationale ++ ("Graph degraded; blast radius is partial." ∷ []);
        approval_required = false;
        prepare_only = true;
        forensic_required = g.forensic_required;
        blocked_by = [];
      }
      else (let notes : List String =
            if external_llm_advisory_only e.dependencies
            then rationale ++ ("External LLM unavailable; advisory enrichment disabled." ∷ [])
            else rationale in
          if g.approval_required || needs_approval e.action_class
          then record {
            decision = ExecutionDecision.approval_required;
            rationale = or_default notes "Action class requires approval.";
            approval_required = true;
            prepare_only = false;
            forensic_required = g.forensic_required;
            blocked_by = [];
          }
          else if is_prepare_only e.action_class
          then record {
            decision = ExecutionDecision.prepare_only;
            rationale = or_default notes "Action exposed only as prepare step.";
            approval_required = false;
            prepare_only = true;
            forensic_required = g.forensic_required;
            blocked_by = [];
          }
          else record {
            decision = ExecutionDecision.allowed;
            rationale = or_default notes "Policy evaluation passed.";
            approval_required = false;
            prepare_only = false;
            forensic_required = g.forensic_required;
            blocked_by = [];
          })

  -- The middle of `evaluate`, from the trust score on.
  pub weigh_asset : RiskEnvelope F → ExecutionGuardrails F → PolicyDecision
  weigh_asset e g =
      let rationale : List String =
        if lt e.trust_score g.min_trust_score
        then "Trust score below guardrail threshold." ∷ []
        else [] in
      if e.crown_jewels_exposed || is_sensitive e.criticality
      then (let notes : List String =
            rationale ++ ("Crown jewel or business critical asset involved." ∷ []) in
          if is_execution e.action_class
          then record {
            decision = ExecutionDecision.approval_required;
            rationale = notes;
            approval_required = true;
            prepare_only = false;
            forensic_required = g.forensic_required;
            blocked_by = [];
          }
          else conclude e g notes)
      else conclude e g rationale

  -- `evaluate` from the secret rotation on: secrets, blast radius, sources.
  pub check_limits : RiskEnvelope F → ExecutionGuardrails F → PolicyDecision
  check_limits e g =
      if str_eq e.action "execute_secret_rotation" && not (secret_rotation_allowed e.dependencies)
      then record {
        decision = ExecutionDecision.blocked_due_to_degraded_mode;
        rationale = "Vault unavailable. Secret rotation denied." ∷ [];
        approval_required = false;
        prepare_only = false;
        forensic_required = false;
        blocked_by = "vault_unavailable" ∷ [];
      }
      else if is_containment e.action && ltb 25 e.blast_radius
      then record {
        decision = ExecutionDecision.approval_required;
        rationale = "Blast radius exceeds autonomous threshold." ∷ [];
        approval_required = true;
        prepare_only = false;
        forensic_required = g.forensic_required;
        blocked_by = [];
      }
      else if ltb e.strong_signal_count g.min_sources && is_irreversible e.action_class
      then record {
        decision = ExecutionDecision.prepare_only;
        rationale = "Insufficient independent signals for irreversible action." ∷ [];
        approval_required = false;
        prepare_only = true;
        forensic_required = true;
        blocked_by = "insufficient_independent_sources" ∷ [];
      }
      else weigh_asset e g

  -- `evaluate` from the scope check on: scopes and suspicion scores.
  pub check_caller : RiskEnvelope F → ExecutionGuardrails F → PolicyDecision
  check_caller e g =
      if not (contains "admin:write" e.scopes) && is_execution e.action_class
      then record {
        decision = ExecutionDecision.denied;
        rationale = "Caller lacks admin:write scope." ∷ [];
        approval_required = false;
        prepare_only = false;
        forensic_required = false;
        blocked_by = "missing_scope:admin:write" ∷ [];
      }
      else if le (lit 85_000_000) (admin_compromise_score e) && is_execution e.action_class
      then record {
        decision = ExecutionDecision.approval_required;
        rationale =
            "Admin compromise suspicion exceeds escalation threshold."
            ∷ "Step-up approval required before critical admin execution." ∷ [];
        approval_required = true;
        prepare_only = false;
        forensic_required = true;
        blocked_by = "admin_compromise_suspected" ∷ [];
      }
      else if le (lit 65_000_000) (insider_decay_score e) && is_sensitive e.criticality
      then record {
        decision = ExecutionDecision.approval_required;
        rationale =
            "Insider trust decay exceeds threshold for sensitive asset access."
            ∷ "Human approval required while trust recovers or is disproved." ∷ [];
        approval_required = true;
        prepare_only = false;
        forensic_required = g.forensic_required;
        blocked_by = "insider_trust_decay" ∷ [];
      }
      else check_limits e g

  -- `evaluate` once the capability is found.
  unfoldable pub evaluate_capability :
      RiskEnvelope F → ExecutionGuardrails F → CapabilityDescriptor → PolicyDecision
  evaluate_capability e g c =
      if e.dry_run && not (is_read_only e.action_class)
      then record {
        decision = ExecutionDecision.prepare_only;
        rationale =
            "Dry-run enforces prepare-only path."
            ∷ (if not (maturity_allowed_in_environment c.maturity e.environment)
                then "Capability maturity too low for execution, but dry-run remains allowed." ∷ []
                else []);
        approval_required = false;
        prepare_only = true;
        forensic_required = g.forensic_required;
        blocked_by = [];
      }
      else if not (maturity_allowed_in_environment c.maturity e.environment)
      then record {
        decision = ExecutionDecision.denied;
        rationale = "Capability maturity too low for environment." ∷ [];
        approval_required = false;
        prepare_only = false;
        forensic_required = false;
        blocked_by = String.◌++◌ "maturity:" (maturity_value c.maturity) ∷ [];
      }
      else if is_irreversible e.action_class && block_irreversible_actions e.dependencies
      then record {
        decision = ExecutionDecision.blocked_due_to_degraded_mode;
        rationale = "Critical dependency unavailable. Irreversible action blocked." ∷ [];
        approval_required = false;
        prepare_only = false;
        forensic_required = g.forensic_required;
        blocked_by = "critical_degraded_mode" ∷ [];
      }
      else check_caller e g

  unfoldable pub evaluate : RiskEnvelope F → ExecutionGuardrails F → String → Option PolicyDecision
  unfolding evaluate_capability
  evaluate e g capability_name = elim (capability_of capability_name) [
    | none ↦ none
    | some c ↦ some (evaluate_capability e g c)
  ]
