-- ===== src/Meta/Decision.antt =====
-- `MetaDecisionAgent.evaluate` of cortex/meta_decision/meta_decision_agent.py, and the requests of
-- deep_analysis_protocol.py. The time that it took is an argument; the audit log, the summary's
-- text and the copies of the result's fields are left out.
use c_e.Common.{
  ℕ, Bool, true, false, not, ◌&&◌, String, List, [], ◌∷◌, ◌++◌, map, Option, none, some,
  if◌then◌else◌, str_eq, ltb, is_empty,
}
use c_e.Common.Dict.{Dict, insert}
use c_e.Common.Float.{Float}
use c_e.Common.Options.{◌>>=◌, map_option}
use c_e.Meta.{MemoryCase, unit_clamp}
use c_e.Meta.Agents.{Profiles}
use c_e.Meta.Reuse.{ReuseDecision}
use c_e.Meta.Trust.{Criteria, TrustComputation, compute_batch, calibrate, assess}
use c_e.Meta.Fingerprint.{Fields, blank, get_field, fields_of}
use c_e.Meta.Linker.{Builtins, Settings, MemoryContext, link}
use c_e.Meta.Messages.{
  AgentMessage, Reading, EventFacts, read, extract_numeric_signal, read_message, mean_of,
  compute_conflict, event_facts,
}
use c_e.Meta.Scores.{signals_in, senders_in, scores_of, selected_of, least_trust}

pub record DeepAnalysisRequest : Type 0 where
  pub agent_id : String
  pub reasons : List String
  pub deadline_ms : ℕ

-- Without a reuse context in the fallback.
pub record MetaDecisionResult (F : Type 0) : Type 0 where
  pub weighted_scores : Dict F
  pub agent_trust_scores : Dict F
  pub conflict_score : F
  pub selected_agents : List String
  pub deep_analysis_triggered : Bool
  pub trust_matrix : Dict (Criteria F)
  pub deep_analysis_requests : List DeepAnalysisRequest
  pub reuse : Option (ReuseDecision F)
  pub degraded_mode : Bool

-- The agents' profiles and the remembered cases.
pub record World (F : Type 0) : Type 0 where
  pub profiles : Profiles F
  pub cases : List (MemoryCase F)

pub record EvaluateRequest (F : Type 0) : Type 0 where
  pub event : Fields F
  pub agent_messages : List (AgentMessage F)
  pub model_scores : Dict F
  pub identity_context : Fields F
  pub graph_context : Fields F
  pub policy_version : String
  pub model_signature : String

-- `build_requests` with the default deadline
unfoldable pub build_requests : List String → List String → List DeepAnalysisRequest
build_requests agent_ids reasons =
    map (λ id. record { agent_id = id; reasons = reasons; deadline_ms = 150 }) agent_ids

abbrev pub reason_if : Bool → String → List String
reason_if test reason = if test then reason ∷ [] else []

-- `graph_context or identity_context or {}`
abbrev or_fields : {F : Type 0} → Fields F → Fields F → Fields F
or_fields blank other = other
or_fields (Fields.field k v fs) other = Fields.field k v fs

module _ {F : Type 0} ⦃o : Float F⦄ (b : Builtins F) (settings : Settings F) where
  unfoldable pub deep_analysis_reasons : F → Dict F → EventFacts F → MemoryContext F → List String
  deep_analysis_reasons conflict trusts facts context =
      reason_if (o.le (o.lit 550_000) conflict) "agent_conflict"
      ++ reason_if (o.lt (least_trust b settings trusts) settings.min_trust_threshold)
          "low_agent_trust"
      ++ reason_if (o.le (o.lit 700_000) facts.novelty_score) "high_novelty"
      ++ reason_if (o.le (o.lit 750_000) facts.criticality) "critical_asset"
      ++ reason_if
          (str_eq context.reuse.reuse_decision "NO_REUSE" && not (is_empty context.matching_cases))
          "reuse_rejected"

  abbrev pub or_senders : List String → List (Reading F) → List String
  or_senders [] readings = senders_in b settings readings
  or_senders (id ∷ ids) readings = id ∷ ids

  -- Once everything is read; `deep` is whether the complexity of the case requires it.
  unfoldable pub decide_on :
      ℕ
      → List (Reading F)
      → TrustComputation F
      → Dict F
      → EventFacts F
      → MemoryContext F
      → Bool
      → MetaDecisionResult F
  decide_on elapsed_ms readings trust model_scores facts context deep =
      let trusts = calibrate trust.agent_case_trust trust.trust_matrix in
      let conflict = compute_conflict b (signals_in b settings readings) in
      let reasons = deep_analysis_reasons conflict trusts facts context in
      let triggered = deep && not (is_empty reasons) in
      let scores = scores_of b settings readings trusts model_scores context.reuse in
      let selected = selected_of b settings readings trusts context.reuse in
      let late = ltb settings.timeout_ms elapsed_ms in
      record {
        weighted_scores =
            if late
            then insert "aggregate_risk" (unit_clamp (mean_of b (signals_in b settings readings)))
                scores
            else scores;
        agent_trust_scores = trusts;
        conflict_score = conflict;
        selected_agents = if late then senders_in b settings readings else selected;
        deep_analysis_triggered = not late && triggered;
        trust_matrix = trust.trust_matrix;
        deep_analysis_requests =
            if not late && triggered
            then build_requests (or_senders selected readings) reasons
            else [];
        reuse = some context.reuse;
        degraded_mode = late;
      }

  -- The `try` block, from the memory's answer on; what it returns, or that it raises, and what has
  -- changed until then.
  unfoldable pub with_memory :
      ℕ
      → EvaluateRequest F
      → List (Reading F)
      → TrustComputation F
      → EventFacts F
      → World F
      → Option (MemoryContext F × List (MemoryCase F))
      → Option (MetaDecisionResult F) × World F
  with_memory elapsed_ms req readings trust facts world none = (none, world)
  with_memory elapsed_ms req readings trust facts world (some (context, cases)) = (
    read b (get_field "graph_score" req.event) (o.lit 0) >>= λ graph.
        read b (get_field "temporal_score" req.event) (o.lit 0) >>= λ temporal. some (
          decide_on elapsed_ms readings trust req.model_scores facts context
            (assess facts.novelty_score graph temporal
              (compute_conflict b (signals_in b settings readings)) facts.criticality).1),
    record world { cases = cases },
  )

  -- From the event's facts on.
  unfoldable pub with_facts :
      F
      → ℕ
      → EvaluateRequest F
      → List (Reading F)
      → TrustComputation F
      → World F
      → Option (EventFacts F)
      → Option (MetaDecisionResult F) × World F
  with_facts now elapsed_ms req readings trust world none = (none, world)
  with_facts now elapsed_ms req readings trust world (some facts) =
      with_memory elapsed_ms req readings trust facts world (
        link b settings now req.event (fields_of req.model_scores)
          (or_fields req.graph_context req.identity_context) (fields_of trust.agent_case_trust)
          facts.novelty_score facts.criticality req.policy_version req.model_signature facts.flags
          world.cases)

  unfoldable pub with_readings :
      F
      → ℕ
      → EvaluateRequest F
      → World F
      → Option (List (Reading F))
      → Option (MetaDecisionResult F) × World F
  with_readings now elapsed_ms req world none = (none, world)
  with_readings now elapsed_ms req world (some readings) =
      let (trust, profiles) = compute_batch b.sum (map (λ r. r.input) readings) world.profiles in
      with_facts now elapsed_ms req readings trust (record world { profiles = profiles })
        (event_facts b req.event)

  -- The whole `try` block.
  unfoldable pub attempt :
      F → ℕ → EvaluateRequest F → World F → Option (MetaDecisionResult F) × World F
  attempt now elapsed_ms req world =
      with_readings now elapsed_ms req world (map_option (read_message b) req.agent_messages)

  abbrev pub fallback_result : List F → MetaDecisionResult F
  fallback_result signals = record {
    weighted_scores = ("aggregate_risk", unit_clamp (mean_of b signals)) ∷ [];
    agent_trust_scores = [];
    conflict_score = o.lit 1_000_000;
    selected_agents = [];
    deep_analysis_triggered = false;
    trust_matrix = [];
    deep_analysis_requests = [];
    reuse = none;
    degraded_mode = true;
  }

  -- The `except` block, which reads the signals again.
  unfoldable pub fallback : List (AgentMessage F) → Option (MetaDecisionResult F)
  fallback messages =
      map_option (extract_numeric_signal b) messages >>= λ signals. some (fallback_result signals)

  unfoldable pub evaluate :
      F → ℕ → EvaluateRequest F → World F → Option (MetaDecisionResult F) × World F
  evaluate now elapsed_ms req world =
      let (result, after) = attempt now elapsed_ms req world in
      (elim result [ none ↦ fallback req.agent_messages | some r ↦ some r ], after)
