-- ===== src/Agents.antt =====
-- services/cortex-agents/cortex_agents: the agents that carry out tasks. What an agent gives back is
-- `AgentResult` of base.py; its output is the JSON object of Meta.Fingerprint.
pub mod Export
pub mod Contract
pub mod Guard
pub mod Verifier
pub mod Kerberos
pub mod Directory
pub mod Remediation
pub mod Plans
pub mod Examples
use c_e.Common.{Bool, true, false, String, List, []}
use c_e.Common.{Option, none}
use c_e.Core.Contracts.{CapabilityMaturity, ExecutionMode}
use c_e.Meta.Fingerprint.{Json, text, Fields, blank, field}

-- `reasoned` is whether the text of the reasoning is not empty; durations and token counts are zero
-- throughout.
pub record AgentResult (F : Type 0) : Type 0 where
  pub agent_id : String
  pub success : Bool
  pub output : Fields F
  pub reasoned : Bool
  pub actions_taken : List String
  pub requires_approval : Bool
  pub approval_payload : Option (Fields F)
  pub execution_mode : ExecutionMode
  pub capability_maturity : CapabilityMaturity

-- `_error_result`
abbrev pub error_result : {F : Type 0} → String → String → AgentResult F
error_result agent_id reason = record {
  agent_id = agent_id;
  success = false;
  output = field "error" (text reason) blank;
  reasoned = true;
  actions_taken = [];
  requires_approval = false;
  approval_payload = none;
  execution_mode = ExecutionMode.prepare;
  capability_maturity = CapabilityMaturity.stubbed;
}
