-- ===== src/Mcp.antt =====
-- services/cortex-mcp-server/cortex_mcp_server: routing of a task to a model, and the gate that
-- checks tool calls against the policy engine.
pub mod Models
pub mod Keywords
pub mod Specs
pub mod Router
pub mod Breaker
pub mod Sessions
pub mod Tools
pub mod Examples
