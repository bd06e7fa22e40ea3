-- ===== src/Mcp/Tools/DryRun.antt =====
-- Dry runs of registered tools: the policy answers PREPARE_ONLY, and the task is sent to the agent
-- all the same.
use c_e.Common.{true, false, String, some, ◌≡◌, refl, arith, ◌↔◌, inl, inr, Bool-cases, []}
use c_e.Common.Float.{Float}
use c_e.Core.Contracts.{ExecutionDecision, ActionClass, is_read_only}
use c_e.Core.Degraded.{maturity_allowed_in_environment}
use c_e.Core.Maturity.{CapabilityDescriptor, capability_of}
use c_e.Policy.{PolicyDecision}
use c_e.Policy.DryRun.{dry_run_prepares, immature_denied}
use c_e.Mcp.Specs.{ToolSpec, spec_of}
use c_e.Mcp.Tools.{
  Exchange, ToolParams, ToolReply, ok, execute_tool, tool_envelope, tool_guardrails,
}
use c_e.Mcp.Tools.Gate.{Dispatched, decision_of_policy, gate_of_run, gate_reply}

module _ {F : Type 0} ⦃o : Float F⦄ (environment : String) (exchange : Exchange) (tool : String)
    (p : ToolParams F) (spec : ToolSpec) (reply : ToolReply) where
  -- A dry run of a registered tool that is no plain read, if it returns, is decided PREPARE_ONLY and
  -- its task is sent to the agent, as for a call that is allowed.
  dry_run-Dispatched :
      spec_of tool ≡ some spec
      → execute_tool environment exchange tool p ≡ ok reply
      → is_read_only spec.action_class ≡ false
      → p.dry_run ≡ true
      → (d : PolicyDecision) × (reply.policy_decision ≡ some d)
        × (d.decision ≡ ExecutionDecision.prepare_only)
        × (Dispatched spec reply)
  dry_run-Dispatched found run write dry =
      let (d, policy, e) = gate_of_run environment exchange tool p spec reply found run in
      let (c, known, verdict) = decision_of_policy environment tool spec p d policy in
      let prepares =
        dry_run_prepares (tool_envelope environment tool c.maturity spec p) (tool_guardrails spec)
          spec.capability known verdict write dry in
      let (reported, sent, _) = gate_reply exchange tool spec d reply e in
      (d, reported, prepares, sent.1 (ground (arith, prepares)))

abbrev pub restore_spec : ToolSpec
restore_spec = record {
  category = "ad_recovery";
  risk_level = 4;
  check = "recycle_bin_restore";
  subject = "cortex.agents.tasks.ad";
  task_type = "restore_deleted";
  action_class = ActionClass.execute_with_approval;
  capability = "ad_destructive_writes";
}

restore-spec_of : spec_of "ad_restore_deleted" ≡ some restore_spec
unfolding spec_of
restore-spec_of = refl

writes_stubbed :
    (c : CapabilityDescriptor) (environment : String)
    → capability_of "ad_destructive_writes" ≡ some c
    → maturity_allowed_in_environment c.maturity environment ≡ false
unfolding capability_of maturity_allowed_in_environment
writes_stubbed c environment h = ground arith

module _ {F : Type 0} ⦃o : Float F⦄ (environment : String) (exchange : Exchange) (p : ToolParams F)
    (reply : ToolReply) where
  restore_blocked :
      execute_tool environment exchange "ad_restore_deleted" p ≡ ok reply
      → p.dry_run ≡ false
      → reply.effects ≡ []
  restore_blocked run real =
      let (d, policy, e) =
        gate_of_run environment exchange "ad_restore_deleted" p restore_spec reply restore-spec_of
          run in
      let (c, known, verdict) =
        decision_of_policy environment "ad_restore_deleted" restore_spec p d policy in
      let denied =
        immature_denied (tool_envelope environment "ad_restore_deleted" c.maturity restore_spec p)
          (tool_guardrails restore_spec) "ad_destructive_writes" known verdict real
          (writes_stubbed c environment known) in
      let (_, _, blocked) = gate_reply exchange "ad_restore_deleted" restore_spec d reply e in
      (blocked (ground (arith, denied))).1

  -- In every environment, a call of the tool that restores a deleted directory object, whose
  -- capability is STUBBED, that returns has sent its task to the directory agent exactly when the
  -- caller asked for a dry run.
  pub restore_only_by_dry_run :
      execute_tool environment exchange "ad_restore_deleted" p ≡ ok reply
      → (Dispatched restore_spec reply) ↔ (p.dry_run ≡ true)
  restore_only_by_dry_run run = elim (Bool-cases p.dry_run) [
    | inl dry ↦
        let (d, _, _, sent) =
          dry_run-Dispatched environment exchange "ad_restore_deleted" p restore_spec reply
            restore-spec_of run refl dry in
        (λ _. dry, λ _. sent)
    | inr real ↦ ground (arith, restore_blocked run real)
  ]
