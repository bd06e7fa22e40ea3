-- ===== src/Mcp/Tools/Total.antt =====
-- When `execute_tool` returns.
use c_e.Common.{
  Bool, true, false, String, [], ◌∷◌, ◌≤◌, some, none, ◌≡◌, refl, arith, All, all→All, Option-cases,
  Bool-cases, if◌then◌else◌, inl, inr, none-ne-some, tests,
}
use c_e.Common.Dict.{Dict, lookup}
use c_e.Common.Float.{Float, ◌≼◌}
use c_e.Common.Int.{pos_part}
use c_e.Core.Maturity.{capability_of}
use c_e.Policy.{PolicyDecision, evaluate, evaluate_capability}
use c_e.Mcp.Specs.{ToolSpec, spec_of, tool_specs}
use c_e.Mcp.Tools.{
  Exchange, ToolParams, ToolReply, ok, execute_tool, evaluate_tool_policy, gate, read_or,
  tool_envelope, tool_guardrails, are_readable, are_natural, risk_level_of, is_blocked, checked,
  publish_task,
}

abbrev is_known : String → Bool
is_known capability = elim (capability_of capability) [ none ↦ false | some _ ↦ true ]

abbrev AllKnown : Dict ToolSpec → Type 0
AllKnown = All (λ entry. is_known entry.1.capability ≡ true)

tool_specs-AllKnown : AllKnown tool_specs
unfolding capability_of
tool_specs-AllKnown = all→All (λ entry. is_known entry.1.capability) tool_specs refl

lookup-known :
    (table : Dict ToolSpec) (tool : String) (spec : ToolSpec)
    → AllKnown table
    → lookup tool table ≡ some spec
    → is_known spec.capability ≡ true
lookup-known [] tool spec h e = absurd (none-ne-some e)
lookup-known ((k, s) ∷ table) tool spec (p, ps) e = ground (arith, lookup-known table tool spec ps)

spec-known :
    (tool : String) (spec : ToolSpec) → spec_of tool ≡ some spec → is_known spec.capability ≡ true
unfolding spec_of
spec-known tool spec e = lookup-known tool_specs tool spec tool_specs-AllKnown e

known-ne-unknown :
    (capability : String) → is_known capability ≡ true → capability_of capability ≡ none → ⊥
known-ne-unknown capability h e = ground arith

module _ (succeeded : Bool) (tool : String) (spec : ToolSpec) (d : PolicyDecision) where
  gate-answered : (reply : ToolReply) × (gate (Exchange.answered succeeded) tool spec d ≡ ok reply)
  unfolding gate
  gate-answered = elim (Bool-cases (is_blocked d.decision)) [
    | inl blocked ↦ (checked tool spec d "blocked" [], ground arith)
    | inr unblocked ↦ (
      checked tool spec d (if succeeded then "completed" else "failed")
          (publish_task spec.subject spec.task_type ∷ []),
      ground arith,
    )
  ]

module _ {F : Type 0} ⦃o : Float F⦄ (environment : String) (succeeded : Bool) (tool : String)
    (p : ToolParams F) (spec : ToolSpec) where
  -- A call of any registered tool whose agent answers returns a reply, if every entry of its params
  -- can be read, no count is negative, its trust score, or the default 50, lies from 0 to 100, and its
  -- risk level, or the tool's own, lies from 0 to 5: every tool's capability is registered, so the
  -- policy lookup raises no `KeyError`.
  pub registered_tool_replies :
      spec_of tool ≡ some spec
      → are_readable p ≡ true
      → are_natural spec p ≡ true
      → o.lit 0 ≼ read_or p.trust_score (o.lit 50_000_000)
      → read_or p.trust_score (o.lit 50_000_000) ≼ o.lit 100_000_000
      → pos_part (risk_level_of spec p) ≤ 5
      → (reply : ToolReply) × (execute_tool environment (Exchange.answered succeeded) tool p
          ≡ ok reply)
  unfolding execute_tool evaluate_tool_policy evaluate
  registered_tool_replies found readable natural low high risk =
      elim (Option-cases (capability_of spec.capability)) [
        | inl e ↦ absurd (known-ne-unknown spec.capability (spec-known tool spec found) e)
        | inr (c, e) ↦
            let (reply, answered) = gate-answered succeeded tool spec (
              evaluate_capability (tool_envelope environment tool c.maturity spec p)
                (tool_guardrails spec) c) in
            (reply, grind tests)
      ]
