-- ===== src/Trust.antt =====
-- services/cortex-trust-engine: the scorer, and the evaluation that keeps a profile per entity.
pub mod Scorer
pub mod Evaluate
pub mod Tokens
pub mod Examples
