-- ===== src/Core/Isolation.antt =====
-- shared/cortex-core/cortex_core/state_machine.py: the isolation states of an entity, the table of
-- allowed transitions, and the guarded transition.
use Prim.Native.String
use c_e.Common.{ℕ, Bool, true, false, String, List, [], ◌∷◌, ◌==◌, any, if◌then◌else◌}
pub mod Paths

pub data IsolationState : Type 0 where
  free monitored suspected observation restricted quarantined : IsolationState
  identity_revoked forensic_preserved isolated recovery_pending restored failed : IsolationState

-- The place of a state in the enumeration, by which states are compared.
abbrev index : IsolationState → ℕ
index IsolationState.free = 0
index IsolationState.monitored = 1
index IsolationState.suspected = 2
index IsolationState.observation = 3
index IsolationState.restricted = 4
index IsolationState.quarantined = 5
index IsolationState.identity_revoked = 6
index IsolationState.forensic_preserved = 7
index IsolationState.isolated = 8
index IsolationState.recovery_pending = 9
index IsolationState.restored = 10
index IsolationState.failed = 11

-- `state.value`
abbrev pub value : IsolationState → String
value IsolationState.free = "free"
value IsolationState.monitored = "monitored"
value IsolationState.suspected = "suspected"
value IsolationState.observation = "observation"
value IsolationState.restricted = "restricted"
value IsolationState.quarantined = "quarantined"
value IsolationState.identity_revoked = "identity_revoked"
value IsolationState.forensic_preserved = "forensic_preserved"
value IsolationState.isolated = "isolated"
value IsolationState.recovery_pending = "recovery_pending"
value IsolationState.restored = "restored"
value IsolationState.failed = "failed"

abbrev Table : Type 0
Table = IsolationState → List IsolationState

-- `ALLOWED_TRANSITIONS`
abbrev allowed_transitions : Table
allowed_transitions IsolationState.free = IsolationState.monitored ∷ IsolationState.suspected ∷ []
allowed_transitions IsolationState.monitored =
    IsolationState.free ∷ IsolationState.suspected ∷ IsolationState.observation ∷ []
allowed_transitions IsolationState.suspected =
    IsolationState.monitored ∷ IsolationState.observation ∷ IsolationState.restricted ∷ []
allowed_transitions IsolationState.observation =
    IsolationState.monitored ∷ IsolationState.restricted ∷ IsolationState.quarantined ∷ []
allowed_transitions IsolationState.restricted =
    IsolationState.observation ∷ IsolationState.quarantined ∷ []
allowed_transitions IsolationState.quarantined =
    IsolationState.forensic_preserved ∷ IsolationState.recovery_pending ∷ []
allowed_transitions IsolationState.forensic_preserved =
    IsolationState.identity_revoked ∷ IsolationState.isolated ∷ []
allowed_transitions IsolationState.identity_revoked = IsolationState.isolated ∷ []
allowed_transitions IsolationState.isolated =
    IsolationState.recovery_pending ∷ IsolationState.failed ∷ []
allowed_transitions IsolationState.recovery_pending =
    IsolationState.restored ∷ IsolationState.failed ∷ []
allowed_transitions IsolationState.restored = IsolationState.free ∷ []
allowed_transitions IsolationState.failed = []

-- `new in TABLE.get(current, set())`
abbrev is_allowed : Table → IsolationState → IsolationState → Bool
is_allowed table current new = any (λ s. index s == index new) (table current)

pub record TransitionResult : Type 0 where
  pub allowed : Bool
  pub from_state : IsolationState
  pub to_state : IsolationState
  pub reason : String

abbrev invalid_transition : IsolationState → IsolationState → String → String
invalid_transition current new reason = String.◌++◌ "invalid_transition:" (
    String.◌++◌ (value current)
      (String.◌++◌ "->" (String.◌++◌ (value new) (String.◌++◌ ":" reason))))

unfoldable pub transition_isolation_state :
    IsolationState → IsolationState → String → TransitionResult
transition_isolation_state current new reason =
    if is_allowed allowed_transitions current new
    then record { allowed = true; from_state = current; to_state = new; reason = reason }
    else record {
      allowed = false;
      from_state = current;
      to_state = current;
      reason = invalid_transition current new reason;
    }
