-- ===== src/Agents/Remediation.antt =====
-- `RemediationAgent` of services/cortex-agents/cortex_agents/agents/remediation.py. The results of
-- the tools and the model's answer are arguments; a handler gives its result and the calls that it
-- made, in order, or none where the task lacks a key or its type is unknown. Such a run raises, and
-- its calls are dropped too: the source may have made some before it reads the missing `task_id`. Of
-- a tool's reply the result is kept; the reasons and scores that a task carries along are left out.
use c_e.Common.{
  Bool, true, false, not, String, List, [], ◌∷◌, ◌++◌, Option, none, some, if◌then◌else◌, str_eq,
  contains,
}
use c_e.Common.Int.{pos}
use c_e.Common.Dict.{Dict, lookup, get_or}
use c_e.Common.Options.{◌>>=◌}
use c_e.Core.Contracts.{CapabilityMaturity, ExecutionMode}
use c_e.Meta.Fingerprint.{Json, null, flag, integer, text, object, Fields, blank, field}
use c_e.Agents.{AgentResult}

pub data McpCall : Type 0 where
  tool : String → McpCall
  completion : McpCall

-- What the tools and the model answer.
pub record Replies (F : Type 0) : Type 0 where
  pub result : String → Fields F
  pub explanation : String

abbrev pub RemediationTask : Type 0
RemediationTask = Dict String

abbrev pub is_directory_entity : RemediationTask → Bool
is_directory_entity task =
    contains (get_or "entity_type" "" task) ("user" ∷ "group" ∷ "computer" ∷ "ad_object" ∷ [])

abbrev pub blast_tool : RemediationTask → String
blast_tool task = if is_directory_entity task then "bh_get_blast_radius" else "get_blast_radius"

abbrev pub directory_call : RemediationTask → String → List McpCall
directory_call task name = if is_directory_entity task then tool name ∷ [] else []

module _ {F : Type 0} (replies : Replies F) where
  abbrev result_of : String → Json F
  result_of name = object (replies.result name)

  abbrev directory_result : RemediationTask → String → Json F
  directory_result task name = if is_directory_entity task then result_of name else null

  abbrev prepared : CapabilityMaturity → Fields F → List String → Option (Fields F) → AgentResult F
  prepared maturity output actions payload = record {
    agent_id = "remediation";
    success = true;
    output = output;
    reasoned = true;
    actions_taken = actions;
    requires_approval = elim payload [ none ↦ false | some _ ↦ true ];
    approval_payload = payload;
    execution_mode = ExecutionMode.prepare;
    capability_maturity = maturity;
  }

  -- An execution that is blocked by design.
  abbrev execution_blocked : String → String → AgentResult F
  execution_blocked action entity_id = record {
    agent_id = "remediation";
    success = false;
    output = field "blocked" (flag true) (field "reason" (text action) blank);
    reasoned = true;
    actions_taken = [];
    requires_approval = true;
    approval_payload =
        some (field "action" (text action) (field "entity_id" (text entity_id) blank));
    execution_mode = ExecutionMode.execute;
    capability_maturity = CapabilityMaturity.experimental;
  }

  abbrev prepare_sot_plan : RemediationTask → String → AgentResult F × List McpCall
  prepare_sot_plan task entity_id = (
    prepared CapabilityMaturity.preprod_ready
        (field "plan_type" (text "issue_sot") (
          field "entity_id" (text entity_id)
            (field "approval_required" (flag false) (field "rollback_possible" (flag true) blank))))
        ("prepare_issue_sot" ∷ []) none,
    [],
  )

  abbrev execute_issue_sot : RemediationTask → String → AgentResult F × List McpCall
  execute_issue_sot task entity_id = (
    record (prepared CapabilityMaturity.preprod_ready
        (field "sot" (result_of "issue_sot") (field "entity_id" (text entity_id) blank))
        ("issue_sot" ∷ []) none) { execution_mode = ExecutionMode.execute },
    tool "issue_sot" ∷ [],
  )

  abbrev pub prepare_quarantine : RemediationTask → String → AgentResult F × List McpCall
  prepare_quarantine task entity_id =
      let findings : Fields F = field "blast_radius" (result_of (blast_tool task)) (
        field "privilege_context" (directory_result task "bh_answer_privilege_question")
          (field "decision" (result_of "decision_analyze_response") blank)) in
      (
        prepared CapabilityMaturity.beta
            (field "plan_type" (text "quarantine") (
              field "approval_required" (flag true)
                (field "rollback_possible" (flag true) findings)))
            []
            (some (
              field "action" (text "quarantine") (
                field "entity_id" (text entity_id)
                  (field "risk_level" (integer (pos 4)) findings)))),
        tool (blast_tool task) ∷ directory_call task "bh_answer_privilege_question"
            ++ tool "decision_analyze_response" ∷ [],
      )

  abbrev pub prepare_irreversible_containment :
      RemediationTask → String → AgentResult F × List McpCall
  prepare_irreversible_containment task entity_id =
      let findings : Fields F = field "blast_radius" (result_of (blast_tool task)) (
        field "privilege_path" (directory_result task "bh_get_attack_path") (
          field "explanation" (text replies.explanation)
            (field "decision" (result_of "decision_analyze_response") blank))) in
      (
        record (prepared CapabilityMaturity.experimental
            (field "plan_type" (text "irreversible_containment") (
              field "forensic" (result_of "forensic_preserve") (
                field "forensic_required" (flag true)
                  (field "rollback_possible" (flag false) findings))))
            ("forensic_preserve" ∷ [])
            (some (
              field "action" (text "prepare_irreversible_containment") (
                field "entity_id" (text entity_id)
                  (field "risk_level" (integer (pos 5)) findings))))) {
                    reasoned = not (str_eq replies.explanation "");
                  },
        tool (blast_tool task) ∷ tool "forensic_preserve" ∷ directory_call task "bh_get_attack_path"
            ++ completion ∷ tool "decision_analyze_response" ∷ [],
      )

  -- The handler of a type.
  unfoldable pub handle_task :
      String → RemediationTask → String → Option (AgentResult F × List McpCall)
  handle_task type task entity_id =
      let is : String → Bool = λ name. str_eq name type in
      if is "prepare_issue_sot"
      then some (prepare_sot_plan task entity_id)
      else if is "execute_issue_sot"
      then some (execute_issue_sot task entity_id)
      else if is "prepare_quarantine"
      then some (prepare_quarantine task entity_id)
      else if is "execute_quarantine"
      then some (execution_blocked "execute_quarantine" entity_id, [])
      else if is "prepare_irreversible_containment"
      then some (prepare_irreversible_containment task entity_id)
      else if is "execute_irreversible_containment"
      then some (execution_blocked "execute_irreversible_containment" entity_id, [])
      else none

  unfoldable pub remediate : RemediationTask → Option (AgentResult F × List McpCall)
  remediate task = do
    type ← lookup "type" task
    task_id ← lookup "task_id" task
    entity_id ← lookup "entity_id" task
    handle_task type task entity_id
