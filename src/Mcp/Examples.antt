-- ===== src/Mcp/Examples.antt =====
-- Tool calls, model calls, routes and breakers on concrete inputs.
use c_e.Common.{
  Bool, true, false, String, [], ◌∷◌, List, Option, some, none, ◌≡◌, refl, ◌↔◌, ◌⊎◌, inl, leb→le,
}
use c_e.Common.Float.{Micro, micro_float}
use c_e.Core.Contracts.{CapabilityMaturity}
use c_e.Core.Maturity.{capability_of}
use c_e.Policy.{evaluate, evaluate_capability}
use c_e.Mcp.Models.{ModelId, TaskType, task_to_model}
use c_e.Mcp.Breaker.{Outcome, new_breaker, is_open}
use c_e.Mcp.Router.{RouterConfig, RoutingDecision, Breakers, choose, is_in, is_gpu}
use c_e.Mcp.Router.Choice.{choose_usable, gpu_off_still_chosen}
use c_e.Mcp.Specs.{spec_of}
use c_e.Mcp.Tools.{
  Exchange, ToolParams, ToolReply, missing, ok, execute_tool, evaluate_tool_policy, gate, checked,
  publish_task, tool_envelope, tool_guardrails,
}
use c_e.Mcp.Tools.Gate.{Dispatched}
use c_e.Mcp.Tools.DryRun.{restore_only_by_dry_run, restore_spec}
use c_e.Mcp.Tools.Total.{registered_tool_replies}
use c_e.Mcp.Tools.Dispatch.{Answer}

abbrev params : (dry_run : Bool) → ToolParams Micro
params dry_run = record {
  entity_id = some "svc-backup";
  account_dn = none;
  entity_type = none;
  trust_score = missing;
  risk_level = missing;
  evidence_count = missing;
  strong_signal_count = missing;
  distinct_sources = missing;
  blast_radius = missing;
  crown_jewels_exposed = false;
  criticality = none;
  scopes = missing;
  dry_run = dry_run;
}

restore_known : spec_of "ad_restore_deleted" ≡ some restore_spec
unfolding spec_of
restore_known = refl

-- The reply to a dry run, for which the agent answers that it succeeded.
abbrev rehearsed : ToolReply
rehearsed =
    checked "ad_restore_deleted" restore_spec
      (evaluate_capability
        (tool_envelope "preprod" "ad_restore_deleted" CapabilityMaturity.stubbed restore_spec
          (params true))
        (tool_guardrails restore_spec)
        (record { name = "ad_destructive_writes"; maturity = CapabilityMaturity.stubbed }))
      "completed" (publish_task restore_spec.subject restore_spec.task_type ∷ [])

restore_returns :
    execute_tool "preprod" (Exchange.answered true) "ad_restore_deleted" (params true)
    ≡ ok rehearsed
unfolding execute_tool evaluate_tool_policy spec_of capability_of evaluate gate evaluate_capability
restore_returns = refl

restore_only_by_dry_run_example :
    (Dispatched restore_spec rehearsed) ↔ ((params true).dry_run ≡ true)
restore_only_by_dry_run_example =
    restore_only_by_dry_run "preprod" (Exchange.answered true) (params true) rehearsed
      restore_returns

registered_tool_replies_example :
    (reply : ToolReply) × (execute_tool "preprod"
        (Exchange.answered true)
        "ad_restore_deleted"
        (params false)
      ≡ ok reply)
registered_tool_replies_example =
    registered_tool_replies "preprod" true "ad_restore_deleted" (params false) restore_spec
      restore_known refl refl refl refl (leb→le 4 5 refl)

abbrev gpu_off : RouterConfig
gpu_off = record {
  forced_models = [];
  disabled_models = ModelId.phi3_mini ∷ ModelId.mistral_7b ∷ [];
  gpu_cloud_enabled = false;
}

abbrev all_closed : Breakers
all_closed _ = new_breaker

choose_usable_example :
    ((is_in (choose gpu_off all_closed TaskType.detect_anomaly) gpu_off.disabled_models ≡ false)
      × (is_open (all_closed (choose gpu_off all_closed TaskType.detect_anomaly)) ≡ false))
    ⊎ ((is_in (choose gpu_off all_closed TaskType.detect_anomaly) gpu_off.disabled_models ≡ false)
        × (choose gpu_off all_closed TaskType.detect_anomaly
            ≡ (task_to_model TaskType.detect_anomaly).1))
    ⊎ (choose gpu_off all_closed TaskType.detect_anomaly ≡ ModelId.claude)
choose_usable_example = choose_usable gpu_off all_closed TaskType.detect_anomaly

gpu_off_still_chosen_example : is_gpu (choose gpu_off all_closed TaskType.detect_anomaly) ≡ true
unfolding task_to_model
gpu_off_still_chosen_example =
    gpu_off_still_chosen gpu_off all_closed TaskType.detect_anomaly refl refl refl refl (inl refl)
      refl

abbrev outages : List Outcome
outages = Outcome.failure ∷ Outcome.failure ∷ Outcome.failure ∷ Outcome.success ∷ []

-- Every model but Claude is down.
abbrev only_claude : ModelId → Option String
only_claude ModelId.claude = some "answer"
only_claude _ = none

abbrev decision : RoutingDecision
decision = record {
  task_type = TaskType.explain;
  primary_model = ModelId.mistral_7b;
  fallback_model = ModelId.claude;
  timeout_ms = 8000;
  hardware = "cpu_local";
  reason = "";
  routing_source = "phi3";
}

abbrev from_claude : Answer
from_claude = record {
  content = "answer";
  model_used = ModelId.claude;
  was_fallback = true;
  agent_id = "soc";
}
