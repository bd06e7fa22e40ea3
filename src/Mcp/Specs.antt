-- ===== src/Mcp/Specs.antt =====
-- services/cortex-mcp-server/cortex_mcp_server/executor.py: `TOOL_SPECS`.
use c_e.Common.{ℕ, String, [], ◌∷◌, Option}
use c_e.Common.Dict.{Dict, lookup}
use c_e.Core.Contracts.{ActionClass}

pub record ToolSpec : Type 0 where
  pub category : String
  pub risk_level : ℕ
  pub check : String
  pub subject : String
  pub task_type : String
  pub action_class : ActionClass
  pub capability : String

abbrev spec : String → ℕ → String → String → String → ActionClass → String → ToolSpec
spec category risk_level check subject task_type action_class capability = record {
  category = category;
  risk_level = risk_level;
  check = check;
  subject = subject;
  task_type = task_type;
  action_class = action_class;
  capability = capability;
}

abbrev pub tool_specs : Dict ToolSpec
tool_specs =
    (
      "ad_validate_group_membership",
      spec "ad_precheck" 2 "bloodhound_group_membership_risk" "cortex.agents.tasks.ad"
          "validate_group_membership" ActionClass.read_only "ad_read_validations",
    )
    ∷ (
      "ad_validate_service_account",
      spec "ad_precheck" 3 "kerberos_spn_and_delegation_validation" "cortex.agents.tasks.ad"
          "validate_service_account" ActionClass.read_only "ad_read_validations",
    )
    ∷ (
      "ad_run_drift_scan",
      spec "ad_drift" 2 "snapshot_and_drift_scan" "cortex.agents.tasks.ad" "run_drift_scan"
          ActionClass.read_only "ad_read_validations",
    )
    ∷ (
      "ad_restore_deleted",
      spec "ad_recovery" 4 "recycle_bin_restore" "cortex.agents.tasks.ad" "restore_deleted"
          ActionClass.execute_with_approval "ad_destructive_writes",
    )
    ∷ (
      "ad_get_object_acl",
      spec "ad_read" 1 "security_descriptor_read" "cortex.agents.tasks.ad" "get_object_acl"
          ActionClass.read_only "ad_read_validations",
    )
    ∷ (
      "ad_get_deleted_objects",
      spec "ad_read" 1 "show_deleted_search" "cortex.agents.tasks.ad" "get_deleted_objects"
          ActionClass.read_only "ad_read_validations",
    )
    ∷ (
      "ad_dirsync_changes",
      spec "ad_monitoring" 2 "dirsync_incremental_changes" "cortex.agents.tasks.ad"
          "dirsync_changes" ActionClass.read_only "ad_read_validations",
    )
    ∷ (
      "bh_get_attack_path",
      spec "bloodhound_analysis" 2 "privilege_path_lookup" "cortex.agents.tasks.ad"
          "get_attack_path" ActionClass.read_only "bloodhound_exposure_analysis",
    )
    ∷ (
      "bh_get_blast_radius",
      spec "bloodhound_analysis" 2 "resource_exposure_lookup" "cortex.agents.tasks.ad"
          "get_blast_radius" ActionClass.read_only "bloodhound_exposure_analysis",
    )
    ∷ (
      "bh_answer_privilege_question",
      spec "bloodhound_analysis" 2 "privilege_question_answering" "cortex.agents.tasks.ad"
          "answer_privilege_question" ActionClass.advisory "bloodhound_exposure_analysis",
    )
    ∷ (
      "bh_visualize_exposure",
      spec "bloodhound_visualization" 1 "exposure_graph_projection" "cortex.agents.tasks.ad"
          "visualize_exposure" ActionClass.read_only "bloodhound_exposure_analysis",
    )
    ∷ (
      "bh_get_tier0_assets",
      spec "bloodhound_analysis" 1 "tier0_inventory" "cortex.agents.tasks.ad" "get_tier0_assets"
          ActionClass.read_only "bloodhound_exposure_analysis",
    )
    ∷ (
      "decision_assess_privilege_change",
      spec "decision" 4 "privilege_change_decision_committee" "cortex.agents.tasks.decision"
          "assess_privilege_change" ActionClass.advisory "decision_committee",
    )
    ∷ (
      "decision_analyze_response",
      spec "decision" 4 "response_decision_committee" "cortex.agents.tasks.decision"
          "analyze_response_decision" ActionClass.advisory "decision_committee",
    )
    ∷ (
      "decision_explain_human",
      spec "decision" 3 "human_explanation_committee" "cortex.agents.tasks.decision"
          "explain_human_decision" ActionClass.advisory "decision_committee",
    )
    ∷ []

-- `TOOL_SPECS[tool]`, and `none` where `tool not in TOOL_SPECS`.
unfoldable pub spec_of : String → Option ToolSpec
spec_of tool = lookup tool tool_specs
