-- ===== src/Mcp/Tools.antt =====
-- `MCPExecutor` of executor.py: the policy gate before a tool call, the dispatch of the call to an
-- agent, and the model call with its fallback. The agents, the trust engine and the models answer
-- from outside: their replies are arguments. What a call sends is a list of effects. A key of the
-- caller's `params` named like a field of the published task would replace that field: such keys are
-- left out.
use c_e.Common.{
  ℕ, Bool, true, false, not, ◌&&◌, ◌++◌, String, List, [], ◌∷◌, Option, none, some, leb,
  if◌then◌else◌, str_eq,
}
use c_e.Common.Dict.{Dict, lookup}
use c_e.Common.Float.{Float}
use c_e.Common.Int.{ℤ, pos, negsuc, pos_part}
use c_e.Core.Contracts.{
  ActionClass, CapabilityMaturity, DependencyState, ExecutionDecision, ExecutionGuardrails,
  RiskEnvelope, DependencyHealthSnapshot, is_irreversible, needs_approval,
}
use c_e.Core.Maturity.{capability_of}
use c_e.Policy.{PolicyDecision, evaluate}
use c_e.Mcp.Specs.{ToolSpec, spec_of, tool_specs}
pub mod Gate
pub mod DryRun
pub mod Total
pub mod Dispatch

-- An entry of `params` that `int`, `float` or `list` reads: `unreadable` stands for a value at which
-- the reading raises.
pub data Entry (A : Type 0) : Type 0 where
  missing unreadable : Entry A
  entry : A → Entry A

abbrev pub can_read : {A : Type 0} → Entry A → Bool
can_read missing = true
can_read unreadable = false
can_read (entry _) = true

-- What is read, where an unreadable entry has raised before.
abbrev pub read_or : {A : Type 0} → Entry A → A → A
read_or missing default = default
read_or unreadable default = default
read_or (entry a) default = a

-- The entries of `params` that the policy's evaluation reads.
pub record ToolParams (F : Type 0) : Type 0 where
  pub entity_id : Option String
  pub account_dn : Option String
  pub entity_type : Option String
  pub trust_score : Entry F
  pub risk_level : Entry ℤ
  pub evidence_count : Entry ℤ
  pub strong_signal_count : Entry ℤ
  pub distinct_sources : Entry ℤ
  pub blast_radius : Entry ℤ
  pub crown_jewels_exposed : Bool
  pub criticality : Option String
  pub scopes : Entry (List String)
  pub dry_run : Bool

abbrev pub or_else {ℓ} : {A : Type ℓ} → Option A → A → A
or_else none default = default
or_else (some a) default = a

-- `a or b` of texts: an absent or empty text gives way.
abbrev first_text : Option String → String → String
first_text none default = default
first_text (some s) default = if str_eq s "" then default else s

abbrev all_healthy : DependencyHealthSnapshot
all_healthy = record {
  nats = DependencyState.healthy;
  neo4j = DependencyState.healthy;
  bloodhound = DependencyState.healthy;
  vault = DependencyState.healthy;
  spire = DependencyState.unknown;
  approval = DependencyState.healthy;
  sentinel = DependencyState.healthy;
  external_llm = DependencyState.healthy;
}

-- What a call sends: a task on an agent's subject, or a request to the trust engine.
pub data Effect : Type 0 where
  publish_task : (subject task_type : String) → Effect
  issue_sot : Effect

-- How an exchange with an agent or the trust engine ends: it raises before or after the message is
-- sent (no connection, an invalid task, a timeout, an error status), or there is an answer.
pub data Exchange : Type 0 where
  unsent unanswered : Exchange
  answered : (succeeded : Bool) → Exchange

-- `no_answer` carries what had been sent when the exchange raised.
pub data ToolError : Type 0 where
  unreadable_params invalid_envelope unknown_capability unsupported_tool : ToolError
  no_answer : List Effect → ToolError

pub data Result (A : Type 0) : Type 0 where
  ok : A → Result A
  err : ToolError → Result A

pub record ToolReply : Type 0 where
  pub tool : String
  pub category : String
  pub risk_level : ℕ
  decision_right : ActionClass
  pub policy_decision : Option PolicyDecision
  pub status : String
  pub effects : List Effect

abbrev decided : Option PolicyDecision → Result PolicyDecision
decided none = err ToolError.unknown_capability
decided (some d) = ok d

abbrev pub is_blocked : ExecutionDecision → Bool
is_blocked ExecutionDecision.denied = true
is_blocked ExecutionDecision.blocked_due_to_degraded_mode = true
is_blocked _ = false

abbrev unchecked :
    (tool category : String) → ℕ → ActionClass → String → List Effect → Result ToolReply
unchecked tool category risk right status effects = ok (record {
  tool = tool;
  category = category;
  risk_level = risk;
  decision_right = right;
  policy_decision = none;
  status = status;
  effects = effects;
})

abbrev pub checked : String → ToolSpec → PolicyDecision → String → List Effect → ToolReply
checked tool spec d status effects = record {
  tool = tool;
  category = spec.category;
  risk_level = spec.risk_level;
  decision_right = spec.action_class;
  policy_decision = some d;
  status = status;
  effects = effects;
}

abbrev dispatched : Exchange → String → ToolSpec → PolicyDecision → Result ToolReply
dispatched Exchange.unsent tool spec d = err (ToolError.no_answer [])
dispatched Exchange.unanswered tool spec d =
    err (ToolError.no_answer (publish_task spec.subject spec.task_type ∷ []))
dispatched (Exchange.answered succeeded) tool spec d = ok (
    checked tool spec d (if succeeded then "completed" else "failed")
      (publish_task spec.subject spec.task_type ∷ []))

-- A tool of `TOOL_SPECS` once the policy has decided.
unfoldable pub gate : Exchange → String → ToolSpec → PolicyDecision → Result ToolReply
gate exchange tool spec d =
    if is_blocked d.decision
    then ok (checked tool spec d "blocked" [])
    else dispatched exchange tool spec d

abbrev gated : Exchange → String → ToolSpec → Result PolicyDecision → Result ToolReply
gated exchange tool spec (err x) = err x
gated exchange tool spec (ok d) = gate exchange tool spec d

-- `_call_trust_engine_sot`
abbrev sot_result : Exchange → String → Result ToolReply
sot_result Exchange.unsent tool = err (ToolError.no_answer [])
sot_result Exchange.unanswered tool = err (ToolError.no_answer (issue_sot ∷ []))
sot_result (Exchange.answered _) tool =
    unchecked tool "response" 4 ActionClass.execute_with_approval "completed" (issue_sot ∷ [])

abbrev is_natural : ℤ → Bool
is_natural (pos _) = true
is_natural (negsuc _) = false

module _ {F : Type 0} ⦃o : Float F⦄ where
  open o use {lit, le}

  abbrev pub are_readable : ToolParams F → Bool
  are_readable p =
      can_read p.trust_score
      && can_read p.risk_level
      && can_read p.evidence_count
      && can_read p.strong_signal_count
      && can_read p.distinct_sources
      && can_read p.blast_radius
      && can_read p.scopes

  abbrev pub risk_level_of : ToolSpec → ToolParams F → ℤ
  risk_level_of spec p = read_or p.risk_level (pos spec.risk_level)

  -- `Field(ge=0)`: the envelope then holds the numbers as natural ones.
  abbrev pub are_natural : ToolSpec → ToolParams F → Bool
  are_natural spec p =
      is_natural (risk_level_of spec p)
      && is_natural (read_or p.evidence_count (pos 0))
      && is_natural (read_or p.strong_signal_count (pos 0))
      && is_natural (read_or p.distinct_sources (pos 0))
      && is_natural (read_or p.blast_radius (pos 0))

  -- The other bounds that `RiskEnvelope` validates: `trust_score` from 0 to 100, `threat_level` to 5.
  abbrev is_valid_envelope : RiskEnvelope F → Bool
  is_valid_envelope e =
      le (lit 0) e.trust_score && (le e.trust_score (lit 100_000_000) && leb e.threat_level 5)

  abbrev pub tool_envelope :
      (environment tool : String) (maturity : CapabilityMaturity)
      → ToolSpec
      → ToolParams F
      → RiskEnvelope F
  tool_envelope environment tool maturity spec p = record {
    entity_id = first_text p.entity_id (first_text p.account_dn "unknown");
    entity_type = first_text p.entity_type "unknown";
    action = tool;
    action_class = spec.action_class;
    trust_score = read_or p.trust_score (lit 50_000_000);
    threat_level = pos_part (risk_level_of spec p);
    evidence_count = pos_part (read_or p.evidence_count (pos 0));
    strong_signal_count = pos_part (read_or p.strong_signal_count (pos 0));
    distinct_sources = pos_part (read_or p.distinct_sources (pos 0));
    blast_radius = pos_part (read_or p.blast_radius (pos 0));
    crown_jewels_exposed = p.crown_jewels_exposed;
    criticality = or_else p.criticality "normal";
    scopes = read_or p.scopes ("admin:write" ∷ []);
    environment = environment;
    dry_run = p.dry_run;
    maturity = maturity;
    derived_signals = [];
    dependencies = all_healthy;
    evidences = [];
  }

  abbrev pub tool_guardrails : ToolSpec → ExecutionGuardrails F
  tool_guardrails spec = record {
    action_class = spec.action_class;
    reversible = true;
    approval_required = needs_approval spec.action_class;
    forensic_required = is_irreversible spec.action_class;
    min_sources = if is_irreversible spec.action_class then 2 else 1;
    min_trust_score = lit 0;
    block_if_critical_dependencies_down = true;
    block_if_maturity_below = CapabilityMaturity.preprod_ready;
  }

  unfoldable pub evaluate_tool_policy :
      (environment tool : String) → ToolSpec → ToolParams F → Result PolicyDecision
  evaluate_tool_policy environment tool spec p = elim (capability_of spec.capability) [
    | none ↦ err ToolError.unknown_capability
    | some c ↦
        let e : RiskEnvelope F = tool_envelope environment tool c.maturity spec p in
        if not (are_readable p)
        then err ToolError.unreadable_params
        else if are_natural spec p && is_valid_envelope e
        then decided (evaluate e (tool_guardrails spec) spec.capability)
        else err ToolError.invalid_envelope
  ]

  unfoldable pub execute_tool :
      (environment : String) (exchange : Exchange) (tool : String) → ToolParams F → Result ToolReply
  execute_tool environment exchange tool p = elim (spec_of tool) [
    | some spec ↦ gated exchange tool spec (evaluate_tool_policy environment tool spec p)
    | none ↦
        if str_eq tool "issue_sot"
        then sot_result exchange tool
        else if str_eq tool "forensic_preserve"
        then unchecked tool "response" 4 ActionClass.prepare_only "planned" []
        else if str_eq tool "get_blast_radius"
        then unchecked tool "analysis" 2 ActionClass.read_only "completed" []
        else err ToolError.unsupported_tool
  ]
