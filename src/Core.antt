-- ===== src/Core.antt =====
-- shared/cortex-core/cortex_core: the data contracts of the services, degraded mode, capability
-- maturity, the isolation state machine and observation tokens.
pub mod Contracts
pub mod Degraded
pub mod Maturity
pub mod Isolation
pub mod Sot
pub mod Examples
