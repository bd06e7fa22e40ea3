-- ===== src/Approval.antt =====
-- services/cortex-approval/cortex_approval/main.py: the approval service, with its store in memory
-- (`requests`, without a database). A handler mutates the stored record itself, so what it changes
-- stays changed when it raises. A `Clock` holds the readings of `now_ts()` in one call. The random
-- id of a new request and the token of the environment are arguments.
pub mod Data
pub mod Handlers
pub mod Records
pub mod Runs
pub mod Quorum
pub mod Final
pub mod Listing
pub mod Examples
