-- ===== src/Lib.antt =====
-- Cortex is a set of services that watch machines and accounts, score how far they can be trusted,
-- and contain them. The sentinel of a machine scores its own events and asks for observation,
-- restriction, quarantine or irreversible containment; the trust engine keeps a score per entity
-- from the evidences that the sentinels publish; the approval service holds the human decisions on
-- plans; the MCP server routes a task to a language model and lets tools reach the agents only
-- behind the policy engine. Around them, an audit service keeps what was decided, a campaign
-- memory and three engines derive signals from what accounts do, the orchestrator registers the
-- models that machines and notebooks train, and a memory of cases lets an earlier analysis be
-- reused. All share the contracts of cortex_core: the capability registry, degraded mode, the
-- isolation states and the observation tokens.
--
-- Files and what they model (paths from the repository's root):
--   Common: helpers: lists, dicts, integers, tests, and `Float`, an abstract Python float.
--   Core: shared/cortex-core/cortex_core. Contracts, Degraded, Maturity, Isolation and Sot model
--     contracts.py, degraded.py, maturity.py, state_machine.py and sot.py.
--   Policy: services/cortex-policy-engine/cortex_policy_engine/engine.py. `evaluate` of the source
--     is `evaluate`, `evaluate_capability`, `check_caller`, `check_limits`, `weigh_asset` and
--     `conclude`, each ending in the next.
--   Mcp: services/cortex-mcp-server/cortex_mcp_server. Models, Keywords, Router and Breaker are
--     router.py; Specs, Tools and Tools/Dispatch are executor.py; Sessions is modes/multiturn.py.
--   Trust: services/cortex-trust-engine/cortex_trust_engine. Scorer is scorer.py with the
--     enumerations of models.py; Evaluate is `_internal_evaluate` of main.py and
--     Tokens its token endpoints.
--   Approval: services/cortex-approval/cortex_approval/main.py. Data has the records,
--     Handlers the rest.
--   Sentinel: services/cortex-sentinel/sentinel/engine.py. Engine has the scoring, Handlers has
--     `_cycle`, `_act` and `handle_command`.
--   Machine: services/python/cortex-sentinel-machine/app. Promotion, Guard and Drift are
--     promotion/manager.py, learning_guard/guard.py and drift/detectors.py; Queue is
--     transport/queue.py, with the cipher in Mask and sequences of calls in Runs; Signing is
--     policy/signing.py.
--   Campaign: services/cortex-campaign-memory/cortex_campaign_memory/store.py. The store and its
--     windows are in Campaign, `progressive_deviation_score` (as `deviations` and
--     `deviation_score`), `campaign_likelihood_score` and `_merge_windows` in Scores.
--   Audit: services/cortex-audit/cortex_audit/main.py. The handlers for both the list in memory and
--     the database are in Audit; Clauses reads the queries.
--   Signals: engine.py of services/cortex-admin-anomaly, services/cortex-insider-decay and
--     services/cortex-priority-engine, in Admin, Decay and Priority.
--   Orchestrator: services/cortex-orchestrator/cortex_orchestrator/main.py. The model registry is in
--     Orchestrator, `_assess_meta_decision` in Assess; Registry proves what the registry holds.
--   Meta: cortex/meta_decision. Meta has case_memory_store.py, Reuse has
--     analysis_reuse_orchestrator.py, Agents agent_trust_registry.py, Trust decision_trust_engine.py,
--     confidence_calibration.py and case_complexity_engine.py, Fingerprint
--     analysis_fingerprint_engine.py, Linker decision_memory_linker.py; Messages, Scores and Decision
--     have MetaDecisionAgent.evaluate of meta_decision_agent.py with the state that it changes, the
--     profiles and the cases, and none for an exception. What Python and its libraries supply is the
--     record Builtins.
--   Agents: services/cortex-agents/cortex_agents. Export has signal_export.py, Guard
--     ad/bloodhound_guard.py, Verifier ad/action_verifier.py, Kerberos ad/kerberos_validator.py,
--     Directory and its Reads the handlers of agents/ad.py, which return what they write;
--     Remediation has agents/remediation.py, with the calls that each handler makes.
--
-- How the code is modelled: a handler takes the state it reads and returns the state it leaves
-- with its reply and the list of what it sends. What comes from outside (clocks, random ids, the
-- replies of agents, models and the database, the environment's variables), and whether an
-- exchange with it raises, is an argument. A Python dict is an association list in insertion
-- order; an exception is `none` or an error of the model's own. A float is any type with the
-- operations of `Float`; the laws of order that a theorem needs are the record `IsOrdered`, which
-- `Micro`, fixed-point numbers with a NaN, satisfies, and for the signals of agents one law of
-- subtraction, `IsShrinking`. Integers are the native naturals where the source keeps them from
-- being negative and `ℤ` elsewhere. Every loop of the source but one runs over a list and is
-- structural recursion. The loop of the queue's `_mask` takes the wanted length as fuel, which is
-- enough since each round adds 32 bytes; above 128 GiB the counter no longer fits in four bytes
-- and the source raises, as the model does. What code outside the repository does (hashes, base64,
-- JSON, queries of a database) is a record of operations, and a record of laws where a theorem
-- needs them.
--
-- Not modelled: HTTP, NATS and database plumbing; the PostgreSQL mode of the approval service; the
-- collectors; the Go services and the console; the drift detector and the decision agent of the
-- agents; the filters and endpoints of the MCP server, and keys of a tool's params that replace
-- fields of the published task; the sentinel's bridge to the meta decision, whose verdict is an
-- argument of its cycle; training scripts and notebooks.
pub mod Common
pub mod Core
pub mod Policy
pub mod Mcp
pub mod Trust
pub mod Approval
pub mod Sentinel
pub mod Machine
pub mod Campaign
pub mod Audit
pub mod Signals
pub mod Orchestrator
pub mod Meta
pub mod Agents
