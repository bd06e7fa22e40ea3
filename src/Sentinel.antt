-- ===== src/Sentinel.antt =====
-- services/cortex-sentinel/sentinel/engine.py: the agent that watches one entity. The collector, the
-- meta decision and the environment answer from outside and are arguments, as are the readings of
-- the clock and the ids drawn. What a call publishes or runs is a list of effects, without
-- timestamps. The state machine is the one of cortex_core, which the engine imports.
pub mod Engine
pub mod Handlers
pub mod Effects
pub mod Containment
pub mod States
pub mod Examples
