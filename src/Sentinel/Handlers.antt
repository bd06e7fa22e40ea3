-- ===== src/Sentinel/Handlers.antt =====
-- `_cycle`, `_act` and `handle_command` of engine.py.
use c_e.Common.{
  ℕ, Bool, true, false, not, ◌&&◌, String, List, [], ◌∷◌, ◌++◌, Option, none, some, map, filter,
  take, if◌then◌else◌,
}
use c_e.Common.Float.{Float, fmax, fmin}
use c_e.Core.Contracts.{DependencyHealthSnapshot}
use c_e.Core.Degraded.{block_irreversible_actions}
use c_e.Core.Isolation.{IsolationState}
use c_e.Core.Sot.{SotRecord}
use c_e.Sentinel.Engine.{
  EntityState, CollectedEvent, Action, transition_to, recommend_action, compute_score,
  update_baseline, check_multi_source,
}

pub record MetaDecision (F : Type 0) : Type 0 where
  pub aggregate_risk : F
  pub deep_analysis_triggered : Bool

-- The environment variables that `_detect_context` tests.
pub record Environment : Type 0 where
  pub crown_jewel : Bool
  pub production : Bool
  pub payment : Bool
  pub identity_store : Bool

unfoldable pub detect_context : Environment → String
detect_context env =
    if env.crown_jewel
    then "crown_jewel_access"
    else if env.production
    then "production_env"
    else if env.payment
    then "payment_data"
    else if env.identity_store
    then "identity_store"
    else "normal_resource"

-- What leaves the agent: the messages it publishes, by what they say, and the firewall commands.
pub data Effect (F : Type 0) : Type 0 where
  observed : CollectedEvent F → Effect F
  trust_update :
      (score_before score_after : F)
      → Action
      → (hs_signal : Option String) → List (CollectedEvent F)
      → Effect F
  meta_decided : MetaDecision F → Effect F
  local_restriction_applied : Effect F
  sot_issued : SotRecord F → Effect F
  irreversible_blocked_due_to_degraded_mode : Effect F
  local_isolation : Effect F
  remediation :
      Action
      → (trust_score : F) → (trigger_signals : List String) → (hs_signal : Option String)
      → (risk_level : ℕ) → (forensic_required : Bool) → Effect F

-- The id and the times that a new token draws.
pub record Draw (F : Type 0) : Type 0 where
  pub token_id : String
  pub issued_at : F
  pub now : F

-- `type` of a command; any other text is `other`.
pub data Command : Type 0 where
  issue_sot quarantine restrict restore other : Command

abbrev is_irreversible_containment : Action → Bool
is_irreversible_containment Action.prepare_irreversible_containment = true
is_irreversible_containment _ = false

-- `action in {"prepare_quarantine", "prepare_irreversible_containment"}`
abbrev prepares : Action → Bool
prepares Action.prepare_quarantine = true
prepares Action.prepare_irreversible_containment = true
prepares _ = false

abbrev is_free : IsolationState → Bool
is_free IsolationState.free = true
is_free _ = false

module _ {F : Type 0} ⦃o : Float F⦄ where
  open o use {lit, lt, sub, add, mul, round}

  abbrev token_of : Draw F → EntityState F → List (CollectedEvent F) → SotRecord F
  token_of draw s events = record {
    token_id = draw.token_id;
    entity_id = s.entity_id;
    entity_type = s.entity_type;
    reason_codes =
        take 5 (map (λ e. e.event_type) (filter (λ e. lt (lit 500_000) e.severity) events));
    observation_level = "deep";
    restrictions = "no_new_secrets" ∷ "no_crown_jewel_access" ∷ "limited_egress" ∷ [];
    issued_at = draw.issued_at;
    expires_at = add draw.now (lit 1_800_000_000);
    renewable = true;
    revoked_at = none;
    metadata = [];
  }

  -- `_act("issue_sot", ...)`
  unfoldable pub act_issue_sot :
      Draw F → List (CollectedEvent F) → EntityState F → EntityState F × List (Effect F)
  act_issue_sot draw events s = elim s.active_sot_id [
    | some _ ↦ (s, [])
    | none ↦ (
      transition_to IsolationState.observation (record s { active_sot_id = some draw.token_id }),
      sot_issued (token_of draw s events) ∷ [],
    )
  ]

  -- The end of `_act` for the two prepared containments.
  abbrev contain :
      Action
      → List (CollectedEvent F)
      → (hs_signal : Option String) → EntityState F
      → EntityState F × List (Effect F)
  contain action events signal s = (
    transition_to IsolationState.quarantined s,
    local_isolation
        ∷ remediation action s.current_score
            (map (λ e. e.event_type) (filter (λ e. lt (lit 700_000) e.severity) events)) signal
            (if is_irreversible_containment action then 5 else 4)
            (is_irreversible_containment action)
        ∷ [],
  )

  unfoldable pub act :
      DependencyHealthSnapshot
      → Draw F
      → Action
      → List (CollectedEvent F)
      → (hs_signal : Option String) → EntityState F
      → EntityState F × List (Effect F)
  act deps draw Action.no_action events signal s = (s, [])
  act deps draw Action.monitor events signal s = (s, [])
  act deps draw Action.alert_human_only events signal s = (s, [])
  act deps draw Action.immediate_quarantine events signal s = (s, [])
  act deps draw Action.restrict events signal s =
      (transition_to IsolationState.restricted s, local_restriction_applied ∷ [])
  act deps draw Action.issue_sot events signal s = act_issue_sot draw events s
  act deps draw Action.prepare_quarantine events signal s =
      contain Action.prepare_quarantine events signal s
  act deps draw Action.prepare_irreversible_containment events signal s =
      if not (check_multi_source events 2)
      then act_issue_sot draw events s
      else if block_irreversible_actions deps
      then (let (t, effects) = act_issue_sot draw events s in
          (t, irreversible_blocked_due_to_degraded_mode ∷ effects))
      else contain Action.prepare_irreversible_containment events signal s

  -- The score and the action after the meta decision.
  unfoldable pub adjusted : EntityState F → Option (MetaDecision F) → F × Action → F × Action
  adjusted s none verdict = verdict
  adjusted s (some meta) (score, _) =
      let new_score : F =
        fmax (lit 0) (
          round 2 (sub score (fmin (lit 18_000_000) (mul meta.aggregate_risk (lit 18_000_000))))) in
      let action : Action = recommend_action new_score s in
      (
        new_score,
        if meta.deep_analysis_triggered && prepares action then Action.issue_sot else action,
      )

  -- The first lines of `_cycle`: a free entity with events is monitored.
  unfoldable pub watched : EntityState F → EntityState F
  watched s = if is_free s.isolation_state then transition_to IsolationState.monitored s else s

  abbrev pub meta_effects : Option (MetaDecision F) → List (Effect F)
  meta_effects none = []
  meta_effects (some meta) = meta_decided meta ∷ []

  -- The scores that a cycle stores.
  unfoldable pub rescored : F → EntityState F → EntityState F
  rescored score s =
      let scored : EntityState F = record s { current_score = score } in
      record scored { baseline_score = update_baseline scored }

  -- A cycle on at least one event. The meta decision may depend on the score.
  unfoldable pub cycle :
      DependencyHealthSnapshot
      → Draw F
      → Environment
      → (ℕ → F)
      → (F → Option (MetaDecision F))
      → List (CollectedEvent F)
      → EntityState F
      → EntityState F × List (Effect F)
  cycle deps draw env clock bridge [] s = (s, [])
  cycle deps draw env clock bridge (first ∷ rest) s =
      let events : List (CollectedEvent F) = first ∷ rest in
      let seen : EntityState F = watched s in
      let (score, action, signal) = compute_score clock seen events (detect_context env) in
      let meta : Option (MetaDecision F) = bridge score in
      let (final_score, final_action) = adjusted seen meta (score, action) in
      let (after, effects) = act deps draw final_action events signal (rescored final_score seen) in
      (
        after,
        map observed events
            ++ (trust_update seen.current_score final_score final_action signal events
                ∷ (meta_effects meta ++ effects)),
      )

  unfoldable pub handle_command : Draw F → Command → EntityState F → EntityState F × List (Effect F)
  handle_command draw Command.issue_sot s = act_issue_sot draw [] s
  handle_command draw Command.quarantine s =
      (transition_to IsolationState.quarantined s, local_isolation ∷ [])
  handle_command draw Command.restrict s = (transition_to IsolationState.restricted s, [])
  handle_command draw Command.restore s =
      let freed : EntityState F =
        transition_to IsolationState.free (
          transition_to IsolationState.restored
            (transition_to IsolationState.recovery_pending s)) in
      (record freed { active_sot_id = none; current_score = lit 75_000_000 }, [])
  handle_command draw Command.other s = (s, [])
