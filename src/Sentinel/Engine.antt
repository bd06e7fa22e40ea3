-- ===== src/Sentinel/Engine.antt =====
-- The state, the scoring and the recommendation of engine.py.
use c_e.Common.{
  ℕ, Bool, ◌&&◌, ◌||◌, String, List, [], ◌∷◌, Option, none, some, map, leb, filter, length,
  contains, if◌then◌else◌,
}
use c_e.Common.Dict.{Dict, get_or}
use c_e.Common.Float.{Float, fmax, fmin, clamp}
use c_e.Core.Isolation.{IsolationState, transition_isolation_state}
use c_e.Trust.Scorer.{distinct}

pub record EntityState (F : Type 0) : Type 0 where
  pub entity_id : String
  pub entity_type : String
  pub current_score : F
  pub baseline_score : F
  pub isolation_state : IsolationState
  pub entity_group : String
  pub is_protected : Bool
  pub active_sot_id : Option String

-- `hard_stop` is the truth of `metadata.get("hard_stop")`.
pub record CollectedEvent (F : Type 0) : Type 0 where
  pub event_type : String
  pub source : String
  pub severity : F
  pub confidence : F
  pub timestamp : F
  pub command : String
  pub hard_stop : Bool

-- The values of the text `action`.
pub data Action : Type 0 where
  no_action monitor restrict issue_sot prepare_quarantine : Action
  prepare_irreversible_containment alert_human_only immediate_quarantine : Action

-- The entity's state after `transition_to`, whose answer no caller reads.
unfoldable pub transition_to : {F : Type 0} → IsolationState → EntityState F → EntityState F
transition_to new s =
    if (transition_isolation_state s.isolation_state new "sentinel_transition").allowed
    then record s { isolation_state = new }
    else s

abbrev hard_stop_signals : List String
hard_stop_signals =
    "confirmed_credential_dump" ∷ "Security Tool Killed" ∷ "Credential Dump Attempt"
    ∷ "confirmed_ransomware_behavior" ∷ "workload_identity_key_compromise" ∷ []

module _ {F : Type 0} ⦃o : Float F⦄ where
  open o use {lit, lt, le, add, sub, mul, div, round}

  abbrev detector_confidence : Dict F
  detector_confidence =
      ("falco_rule", lit 880_000)
      ∷ ("auditd_exec", lit 850_000)
      ∷ ("auditd_connect", lit 800_000)
      ∷ ("psutil_process", lit 700_000)
      ∷ []

  abbrev pub context_multipliers : Dict F
  context_multipliers =
      ("crown_jewel_access", lit 2_000_000)
      ∷ ("identity_store", lit 2_000_000)
      ∷ ("payment_data", lit 1_800_000)
      ∷ ("admin_scope", lit 1_500_000)
      ∷ ("production_env", lit 1_300_000)
      ∷ ("normal_resource", lit 1_000_000)
      ∷ []

  freshness_factor : F → F → F
  freshness_factor age_seconds ttl =
      if le ttl age_seconds
      then lit 0
      else fmax (lit 100_000) (sub (lit 1_000_000) (div age_seconds ttl))

  unfoldable pub recommend_action : F → EntityState F → Action
  recommend_action score s =
      if s.is_protected
      then Action.alert_human_only
      else if lt score (lit 20_000_000)
      then Action.prepare_irreversible_containment
      else if lt score (lit 40_000_000)
      then Action.prepare_quarantine
      else if lt score (lit 55_000_000)
      then Action.issue_sot
      else if lt score (lit 70_000_000)
      then Action.restrict
      else if lt score (lit 80_000_000)
      then Action.monitor
      else Action.no_action

  -- `ev.event_type in HARD_STOP_SIGNALS or ev.metadata.get("hard_stop")`
  abbrev pub stops_hard : CollectedEvent F → Bool
  stops_hard e = contains e.event_type hard_stop_signals || e.hard_stop

  -- The part of one event in the change of the score; `now` is the clock read for it.
  unfoldable pub impact_of : (now multiplier : F) → CollectedEvent F → F
  unfolding freshness_factor
  impact_of now multiplier e =
      mul
        (mul (mul e.severity (fmin e.confidence (get_or e.source e.confidence detector_confidence)))
          (freshness_factor (sub now e.timestamp) (lit 300_000_000)))
        multiplier

  -- The loop over the events, to the first that stops hard: its type, or the change of the score.
  unfoldable pub score_delta :
      (ℕ → F) → (multiplier : F) → F → List (CollectedEvent F) → F × Option String
  score_delta clock multiplier delta [] = (delta, none)
  score_delta clock multiplier delta (e ∷ events) =
      let impact : F = impact_of (clock (length events)) multiplier e in
      let rest =
        score_delta clock multiplier
          (if lt (lit 500_000) e.severity
            then sub delta (mul impact (lit 1_000_000))
            else add delta (mul impact (lit 250_000)))
          events in
      if stops_hard e then (delta, some e.event_type) else rest

  -- Above the baseline a gain counts by a fifth.
  abbrev damped : F → EntityState F → F → F
  damped delta s new_score =
      if lt (lit 0) delta && lt s.baseline_score new_score
      then add s.baseline_score (mul (sub new_score s.baseline_score) (lit 200_000))
      else new_score

  -- The score, the action and the signal of a hard stop. The clock is read once for each event, and
  -- `clock n` is the reading with `n` events still to come.
  unfoldable pub compute_score :
      (ℕ → F)
      → EntityState F
      → List (CollectedEvent F)
      → (context : String) → F × Action × Option String
  compute_score clock s events context =
      let multiplier : F = get_or context (lit 1_000_000) context_multipliers in
      let (delta, hard_stop) = score_delta clock multiplier (lit 0) events in
      elim hard_stop [
        | some signal ↦ (lit 0, Action.immediate_quarantine, some signal)
        | none ↦
            let new_score : F =
              clamp (lit 0) (lit 100_000_000) (damped delta s (add s.current_score delta)) in
            (round 2 new_score, recommend_action new_score s, none)
      ]

  -- With `window_days = 7` the weight `alpha` is 2 / 8.
  pub update_baseline : EntityState F → F
  update_baseline s = round 2 (
      add (mul (div (lit 2_000_000) (lit 8_000_000)) s.current_score)
        (mul (sub (lit 1_000_000) (div (lit 2_000_000) (lit 8_000_000))) s.baseline_score))

  -- The distinct sources of the events of a severity above 0.6.
  abbrev pub strong_sources : List (CollectedEvent F) → List String
  strong_sources events =
      distinct (map (λ e. e.source) (filter (λ e. lt (lit 600_000) e.severity) events))

  unfoldable pub check_multi_source : List (CollectedEvent F) → ℕ → Bool
  check_multi_source events min_sources = leb min_sources (length (strong_sources events))
