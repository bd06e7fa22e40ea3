-- ===== src/Signals/Decay.antt =====
-- services/cortex-insider-decay/cortex_insider_decay/engine.py: the store's histories and the scores.
use c_e.Common.{
  ℕ, ◌-◌, Bool, not, ◌&&◌, ◌||◌, String, List, [], ◌∷◌, ◌++◌, if◌then◌else◌, ltb, leb, length,
  filter, take_last, str_eq, map,
}
use c_e.Common.Dict.{Dict, get_or}
use c_e.Common.Float.{Float, fmin, fmax}
use c_e.Signals.{units, int, at_least}

pub record InsiderEvent : Type 0 where
  pub identity_id : String
  pub role : String
  pub expected_role : String
  pub justification_present : Bool
  pub data_criticality : String
  pub hour_utc : ℕ
  pub organization_context : String
  pub legit_recovery : Bool

pub record InsiderDecaySignal (F : Type 0) : Type 0 where
  pub identity_id : String
  pub role_misalignment_score : F
  pub sensitive_access_without_context_score : F
  pub cumulative_trust_decay : F
  pub trust_decay_recovery : F
  pub confidence : F
  pub evidence : List String

abbrev history_window : List InsiderEvent → List InsiderEvent → List InsiderEvent
history_window history events = take_last 20 history ++ events

module _ {F : Type 0} ⦃o : Float F⦄ where
  pub role_misalignment_score : List InsiderEvent → F
  role_misalignment_score events =
      let mismatches = length (filter (λ e. not (str_eq e.role e.expected_role)) events) in
      fmin (units 100) (
        o.round 2 (
          o.mul (o.div (int mismatches) (int (if leb 1 (length events) then length events else 1)))
            (units 100)))

  abbrev add_if : Bool → ℕ → F → F
  add_if test n score = if test then o.add score (units n) else score

  -- The loop over the events, from a score on.
  context_loop : List InsiderEvent → F → F
  context_loop [] score = score
  context_loop (e ∷ events) score = context_loop events (
      add_if (str_eq e.organization_context "off_process") 15 (
        add_if (ltb e.hour_utc 6 || ltb 21 e.hour_utc) 10 (
          add_if
            ((str_eq e.data_criticality "high" || str_eq e.data_criticality "critical")
              && not e.justification_present)
            25 score)))

  sensitive_access_without_context : List InsiderEvent → F
  unfolding context_loop
  sensitive_access_without_context events =
      fmin (units 100) (o.round 2 (context_loop events (units 0)))

  pub window_decay : List InsiderEvent → F
  unfolding role_misalignment_score sensitive_access_without_context
  window_decay window =
      let repeated = fmin (units 25) (o.mul (int (length window - 2)) (units 3)) in
      fmin (units 100) (
        o.round 2 (
          o.add
            (o.add (o.mul (role_misalignment_score window) (o.lit 350_000))
              (o.mul (sensitive_access_without_context window) (o.lit 450_000)))
            repeated))

  -- `history` is the identity's whole history.
  unfoldable pub cumulative_trust_decay : List InsiderEvent → List InsiderEvent → F
  unfolding window_decay
  cumulative_trust_decay history events = window_decay (history_window history events)

  -- The builtin `sum` is an argument.
  trust_decay_recovery_if_legit : (List F → F) → List InsiderEvent → F
  trust_decay_recovery_if_legit sum events = fmin (units 40) (
      o.round 2 (
        sum
          (map (λ e. units 12) (filter (λ e. e.legit_recovery || e.justification_present) events))))

  -- The signal, from the cumulative decay on.
  unfoldable pub signal_of : (List F → F) → String → List InsiderEvent → F → InsiderDecaySignal F
  unfolding role_misalignment_score sensitive_access_without_context trust_decay_recovery_if_legit
  signal_of sum identity_id events cumulative =
      let role_score = role_misalignment_score events in
      let context_score = sensitive_access_without_context events in
      let recovery = trust_decay_recovery_if_legit sum events in
      let net_decay = fmax (units 0) (o.round 2 (o.sub cumulative recovery)) in
      let evidence =
        (if at_least role_score 40
          then "role alignment deviates from expected baseline" ∷ []
          else [])
        ++ (if at_least context_score 35
            then "sensitive access lacks business context" ∷ []
            else [])
        ++ (if at_least net_decay 60
            then "repeated subtle deviations accumulate over time" ∷ []
            else []) in
      record {
        identity_id = identity_id;
        role_misalignment_score = role_score;
        sensitive_access_without_context_score = context_score;
        cumulative_trust_decay = net_decay;
        trust_decay_recovery = recovery;
        confidence =
            fmin (o.lit 940_000)
              (o.round 2 (o.add (o.lit 400_000) (o.mul (o.lit 80_000) (int (length evidence)))));
        evidence = evidence;
      }

  unfoldable pub evaluate :
      (List F → F) → Dict (List InsiderEvent) → String → List InsiderEvent → InsiderDecaySignal F
  unfolding signal_of cumulative_trust_decay
  evaluate sum histories identity_id events =
      signal_of sum identity_id events
        (cumulative_trust_decay (get_or identity_id [] histories) events)
