-- ===== src/Mcp/Tools/Gate.antt =====
-- What the policy gate of `execute_tool` lets through.
use c_e.Common.{
  true, false, String, [], ◌∷◌, some, ◌≡◌, refl, arith, ◌↔◌, inl, inr, ◌⊎◌, Option-cases,
}
use c_e.Common.Float.{Float}
use c_e.Core.Maturity.{CapabilityDescriptor, capability_of}
use c_e.Policy.{PolicyDecision, evaluate}
use c_e.Policy.Production.{production_denied}
use c_e.Mcp.Specs.{ToolSpec, spec_of}
use c_e.Mcp.Tools.{
  Exchange, ToolParams, ToolReply, Result, ok, err, ToolError, publish_task, execute_tool,
  evaluate_tool_policy, gate, tool_envelope, tool_guardrails, is_blocked,
}

-- The effect of a dispatched tool.
abbrev pub Dispatched : ToolSpec → ToolReply → Type 0
Dispatched spec reply = reply.effects ≡ publish_task spec.subject spec.task_type ∷ []

module _ {F : Type 0} ⦃o : Float F⦄ (environment : String) (tool : String) (spec : ToolSpec)
    (p : ToolParams F) where
  pub decision_of_policy :
      (d : PolicyDecision)
      → evaluate_tool_policy environment tool spec p ≡ ok d
      → (c : CapabilityDescriptor) × (capability_of spec.capability ≡ some c)
        × (evaluate
              (tool_envelope environment tool c.maturity spec p)
              (tool_guardrails spec)
              spec.capability
            ≡ some d)
  unfolding evaluate_tool_policy
  decision_of_policy d h = elim (Option-cases (capability_of spec.capability)) [
    | inl e ↦ ground arith
    | inr (c, e) ↦ (c, e, ground arith)
  ]

Result-cases :
    {A : Type 0} (r : Result A) → ((a : A) × (r ≡ ok a)) ⊎ ((x : ToolError) × (r ≡ err x))
Result-cases (ok a) = inl (a, refl)
Result-cases (err x) = inr (x, refl)

module _ (exchange : Exchange) (tool : String) (spec : ToolSpec) (d : PolicyDecision)
    (reply : ToolReply) where
  pub gate_reply :
      gate exchange tool spec d ≡ ok reply
      → (reply.policy_decision ≡ some d)
        × ((Dispatched spec reply) ↔ (is_blocked d.decision ≡ false))
        × (is_blocked d.decision ≡ true → (reply.status ≡ "blocked") × (reply.effects ≡ []))
  unfolding gate
  gate_reply run = elim exchange [
    | Exchange.unsent ↦ ground arith
    | Exchange.unanswered ↦ ground arith
    | Exchange.answered succeeded ↦ ground arith
  ]

module _ {F : Type 0} ⦃o : Float F⦄ (environment : String) (exchange : Exchange) (tool : String)
    (p : ToolParams F) (spec : ToolSpec) (reply : ToolReply) (found : spec_of tool ≡ some spec)
    (run : execute_tool environment exchange tool p ≡ ok reply) where
  pub gate_of_run :
      (d : PolicyDecision) × (evaluate_tool_policy environment tool spec p ≡ ok d)
      × (gate exchange tool spec d ≡ ok reply)
  unfolding execute_tool
  gate_of_run = elim (Result-cases (evaluate_tool_policy environment tool spec p)) [
    | inl (d, e) ↦ (d, e, ground arith)
    | inr (x, e) ↦ ground arith
  ]

  -- In the environment "prod" a call of a registered tool that is no dry run and returns is refused:
  -- its status is "blocked" and nothing is sent.
  pub production_tools_blocked :
      environment ≡ "prod" → p.dry_run ≡ false → (reply.status ≡ "blocked") × (reply.effects ≡ [])
  production_tools_blocked prod real =
      let (d, policy, e) = gate_of_run in
      let (c, _, verdict) = decision_of_policy environment tool spec p d policy in
      let denied =
        production_denied (tool_envelope environment tool c.maturity spec p) (tool_guardrails spec)
          spec.capability prod real verdict in
      (gate_reply exchange tool spec d reply e).2 (ground (arith, denied))
