-- ===== src/Sentinel/Examples.antt =====
-- Cycles and commands of the sentinel on concrete events.
use c_e.Common.{
  ℕ, ◌≤◌, Bool, true, false, String, [], ◌∷◌, List, Option, some, none, ◌≡◌, refl, any, length,
}
use c_e.Common.Int.{pos, ◌+ℤ◌, ◌*ℤ◌, ◌-ℤ◌, div_ℕ}
use c_e.Common.Float.{Micro, micro_float}
use c_e.Core.Contracts.{DependencyHealthSnapshot, DependencyState}
use c_e.Core.Degraded.{block_irreversible_actions}
use c_e.Core.Isolation.{IsolationState}
use c_e.Sentinel.Engine.{
  EntityState, CollectedEvent, strong_sources, score_delta, check_multi_source, recommend_action,
  impact_of, compute_score,
}
use c_e.Sentinel.Handlers.{
  Environment, Draw, Command, MetaDecision, act, cycle, watched, adjusted, detect_context,
}
use c_e.Sentinel.Effects.{intervenes}
use c_e.Sentinel.Containment.{protected_left_alone, irreversible_needs_sources}
use c_e.Sentinel.States.{Call, on_events, on_command, after_all, is_reachable, engine_states}

abbrev seconds : ℕ → Micro
seconds n = micro_float.of_int (pos n)

abbrev host : (is_protected : Bool) → IsolationState → Option String → EntityState Micro
host is_protected state token = record {
  entity_id = "host-1";
  entity_type = "machine";
  current_score = micro_float.lit 15_000_000;
  baseline_score = micro_float.lit 85_000_000;
  isolation_state = state;
  entity_group = "default";
  is_protected = is_protected;
  active_sot_id = token;
}

abbrev event : (event_type source : String) → CollectedEvent Micro
event event_type source = record {
  event_type = event_type;
  source = source;
  severity = micro_float.lit 900_000;
  confidence = micro_float.lit 950_000;
  timestamp = micro_float.lit 1_000_000_000;
  command = "";
  hard_stop = false;
}

abbrev healthy : DependencyHealthSnapshot
healthy = record {
  nats = DependencyState.healthy;
  neo4j = DependencyState.healthy;
  bloodhound = DependencyState.healthy;
  vault = DependencyState.healthy;
  spire = DependencyState.unknown;
  approval = DependencyState.healthy;
  sentinel = DependencyState.healthy;
  external_llm = DependencyState.healthy;
}

abbrev draw : Draw Micro
draw = record {
  token_id = "sot-9";
  issued_at = micro_float.lit 1_000_000_000;
  now = micro_float.lit 1_000_000_000;
}

abbrev quiet : Environment
quiet = record { crown_jewel = false; production = false; payment = false; identity_store = false }

abbrev clock : ℕ → Micro
clock _ = micro_float.lit 1_000_000_000

abbrev no_meta : Micro → Option (MetaDecision Micro)
no_meta _ = none

abbrev shell : CollectedEvent Micro
shell = event "suspicious_shell" "falco_rule"

abbrev exec : CollectedEvent Micro
exec = event "suspicious_exec" "auditd_exec"

abbrev dump : CollectedEvent Micro
dump = event "confirmed_credential_dump" "falco_rule"

abbrev guarded : EntityState Micro
guarded = host true IsolationState.free none

protected_left_alone_example :
    let (left, effects) = cycle healthy draw quiet clock no_meta (shell ∷ exec ∷ []) guarded in
    (left.isolation_state ≡ (watched guarded).isolation_state)
    × (left.active_sot_id ≡ guarded.active_sot_id)
    × (any intervenes effects ≡ false)
protected_left_alone_example =
    protected_left_alone healthy draw quiet clock no_meta shell (exec ∷ []) guarded refl

abbrev suspect : EntityState Micro
suspect = host false IsolationState.observation none

irreversible_needs_sources_example :
    (2 ≤ length (strong_sources (shell ∷ exec ∷ [])))
    × (block_irreversible_actions healthy ≡ false)
    × (suspect.is_protected ≡ false)
unfolding cycle act adjusted compute_score score_delta recommend_action watched impact_of ◌-ℤ◌ div_ℕ
    ◌*ℤ◌ detect_context ◌+ℤ◌ check_multi_source block_irreversible_actions
irreversible_needs_sources_example =
    irreversible_needs_sources healthy draw quiet clock no_meta shell (exec ∷ []) suspect refl

abbrev history : List (Call Micro)
history =
    on_events healthy draw quiet clock no_meta (shell ∷ exec ∷ [])
    ∷ on_command draw Command.quarantine
    ∷ on_command draw Command.restore
    ∷ []

engine_states_example : is_reachable (after_all history suspect).isolation_state ≡ true
engine_states_example = engine_states history suspect refl

abbrev watched_host : EntityState Micro
watched_host = host false IsolationState.monitored none

abbrev tokened : EntityState Micro
tokened = host false IsolationState.observation (some "sot-1")
