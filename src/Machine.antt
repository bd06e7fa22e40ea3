-- ===== src/Machine.antt =====
-- services/python/cortex-sentinel-machine/app: what guards the models that a machine trains.
pub mod Promotion
pub mod Guard
pub mod Drift
pub mod Queue
pub mod Signing
pub mod Examples
