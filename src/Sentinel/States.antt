-- ===== src/Sentinel/States.antt =====
-- The isolation state over sequences of cycles and commands.
use c_e.Common.{
  ℕ, Bool, true, false, String, List, [], ◌∷◌, Option, none, some, ◌≡◌, ◌↔◌, refl, arith, any,
}
use c_e.Common.Float.{Float}
use c_e.Core.Contracts.{DependencyHealthSnapshot}
use c_e.Core.Isolation.{IsolationState, transition_isolation_state}
use c_e.Sentinel.Engine.{EntityState, CollectedEvent, Action, transition_to}
use c_e.Sentinel.Handlers.{
  MetaDecision, Environment, Draw, Command, act_issue_sot, act, watched, rescored, cycle,
  handle_command,
}
use c_e.Sentinel.Effects.{isolates, issues_token}

-- One call on the engine, with what it draws from outside.
pub data Call (F : Type 0) : Type 0 where
  on_events :
      DependencyHealthSnapshot
      → Draw F
      → Environment
      → (ℕ → F)
      → (F → Option (MetaDecision F))
      → List (CollectedEvent F)
      → Call F
  on_command : Draw F → Command → Call F

-- The states that the engine itself can bring about.
abbrev pub is_reachable : IsolationState → Bool
is_reachable IsolationState.free = true
is_reachable IsolationState.monitored = true
is_reachable IsolationState.observation = true
is_reachable IsolationState.restricted = true
is_reachable IsolationState.quarantined = true
is_reachable IsolationState.recovery_pending = true
is_reachable IsolationState.restored = true
is_reachable _ = false

-- The states from which the table lets an entity be quarantined, and the quarantine itself.
abbrev pub can_be_quarantined : IsolationState → Bool
can_be_quarantined IsolationState.observation = true
can_be_quarantined IsolationState.restricted = true
can_be_quarantined IsolationState.quarantined = true
can_be_quarantined _ = false

-- The states that the command "restore" leaves free.
abbrev is_freed : IsolationState → Bool
is_freed IsolationState.free = true
is_freed IsolationState.monitored = true
is_freed IsolationState.quarantined = true
is_freed IsolationState.isolated = true
is_freed IsolationState.restored = true
is_freed IsolationState.recovery_pending = true
is_freed _ = false

module _ {F : Type 0} ⦃o : Float F⦄ where
  pub after : Call F → EntityState F → EntityState F
  after (on_events deps draw env clock bridge events) s =
      (cycle deps draw env clock bridge events s).0
  after (on_command draw command) s = (handle_command draw command s).0

  pub after_all : List (Call F) → EntityState F → EntityState F
  after_all [] s = s
  after_all (x ∷ xs) s = after_all xs (after x s)

  Reachable-transition :
      (new : IsolationState) (s : EntityState F)
      → is_reachable new ≡ true
      → is_reachable s.isolation_state ≡ true
      → is_reachable (transition_to new s).isolation_state ≡ true
  unfolding transition_to
  Reachable-transition new s n h = ground arith

  act-reachable :
      (deps : DependencyHealthSnapshot) (draw : Draw F) (x : Action) (es : List (CollectedEvent F))
      → (signal : Option String) (s : EntityState F) → is_reachable s.isolation_state ≡ true
      → is_reachable (act deps draw x es signal s).0.isolation_state ≡ true
  unfolding act act_issue_sot
  act-reachable deps draw x es signal s h = ground (
    arith,
    Reachable-transition IsolationState.restricted s refl h,
    Reachable-transition IsolationState.quarantined s refl h,
    Reachable-transition IsolationState.observation
        (record s { active_sot_id = some draw.token_id }) refl h,
  )

  command-reachable :
      (draw : Draw F) (c : Command) (s : EntityState F)
      → is_reachable s.isolation_state ≡ true
      → is_reachable (handle_command draw c s).0.isolation_state ≡ true
  unfolding handle_command act_issue_sot transition_to
  command-reachable draw c s h =
      ground (arith, Reachable-transition IsolationState.recovery_pending s refl h)

  watched-reachable :
      (s : EntityState F)
      → is_reachable s.isolation_state ≡ true
      → is_reachable (watched s).isolation_state ≡ true
  unfolding watched transition_to
  watched-reachable s h = ground arith

  after-reachable :
      (x : Call F) (s : EntityState F)
      → is_reachable s.isolation_state ≡ true
      → is_reachable (after x s).isolation_state ≡ true
  unfolding after cycle rescored
  after-reachable (on_events deps draw env clock bridge []) s h = h
  after-reachable (on_events deps draw env clock bridge (e ∷ es)) s h =
      act-reachable deps draw _ (e ∷ es) _ _ (watched-reachable s h)
  after-reachable (on_command draw c) s h = command-reachable draw c s h

  -- From a reachable state, as `free` is, no sequence of cycles and commands leads to a state that
  -- is suspected, forensically preserved, revoked, isolated or failed: those are left to others.
  pub engine_states :
      (xs : List (Call F)) (s : EntityState F)
      → is_reachable s.isolation_state ≡ true
      → is_reachable (after_all xs s).isolation_state ≡ true
  unfolding after_all
  engine_states [] s h = h
  engine_states (x ∷ xs) s h = engine_states xs (after x s) (after-reachable x s h)

  -- The preparation of a quarantine and the quarantine command both cut the network off in every
  -- state, but the entity is quarantined afterwards only if it was observed, restricted or
  -- quarantined before: a monitored entity is cut off and stays monitored.
  pub isolation_outruns_state :
      (deps : DependencyHealthSnapshot) (draw : Draw F) (es : List (CollectedEvent F))
      → (signal : Option String) (s : EntityState F)
      → let (after_act, effects) = act deps draw Action.prepare_quarantine es signal s in
        let (after_command, commands) = handle_command draw Command.quarantine s in
        (any isolates effects ≡ true)
        × (any isolates commands ≡ true)
        × ((after_act.isolation_state ≡ IsolationState.quarantined)
            ↔ (can_be_quarantined s.isolation_state ≡ true))
        × (after_command ≡ after_act)
  unfolding act handle_command transition_to transition_isolation_state
  isolation_outruns_state deps draw es signal s = ground arith

  -- While a token is active, every action keeps it and issues no other, and the command "issue_sot"
  -- changes and sends nothing.
  token_issued_once :
      (deps : DependencyHealthSnapshot) (draw : Draw F) (x : Action) (es : List (CollectedEvent F))
      → (signal : Option String) (s : EntityState F) (token : String) → s.active_sot_id ≡ some token
      → let (after_act, effects) = act deps draw x es signal s in
        let (after_command, commands) = handle_command draw Command.issue_sot s in
        (after_act.active_sot_id ≡ some token)
        × (any issues_token effects ≡ false)
        × (after_command ≡ s)
        × (commands ≡ [])
  unfolding act handle_command act_issue_sot transition_to
  token_issued_once deps draw x es signal s token h = ground arith

  -- The command "restore" drops the token and sets the score to 75 in every state, but frees the
  -- entity only if it was free, monitored, quarantined, isolated, restored or waiting for recovery.
  restore_forgets :
      (draw : Draw F) (s : EntityState F)
      → let t = (handle_command draw Command.restore s).0 in
        (t.active_sot_id ≡ none)
        × (t.current_score ≡ o.lit 75_000_000)
        × ((t.isolation_state ≡ IsolationState.free) ↔ (is_freed s.isolation_state ≡ true))
  unfolding handle_command transition_to transition_isolation_state
  restore_forgets draw s = ground arith
