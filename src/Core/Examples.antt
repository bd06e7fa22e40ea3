-- ===== src/Core/Examples.antt =====
-- Runs of the isolation states and of an observation token.
use mathlib.Core.List.{Memᴰ}
use c_e.Common.{ℕ, true, false, [], ◌∷◌, List, none, ◌≡◌, refl, ◌⊎◌}
use c_e.Common.Int.{pos, ◌*ℤ◌, ◌+ℤ◌}
use c_e.Common.Float.{Micro, micro_float, Micro-IsOrdered}
use c_e.Core.Isolation.{IsolationState, transition_isolation_state}
use c_e.Core.Isolation.Paths.{run, visited, forensics_before_cut_off, recoverable, way_back}
use c_e.Core.Sot.{SotRecord, issue_sot, evaluate_sot_impact}
use c_e.Core.Sot.Lifecycle.{expire, revoke, update, updates, ended_for_good}

abbrev cut_off : List IsolationState
cut_off =
    IsolationState.monitored ∷ IsolationState.observation ∷ IsolationState.quarantined
    ∷ IsolationState.identity_revoked ∷ IsolationState.forensic_preserved
    ∷ IsolationState.identity_revoked ∷ []

forensics_before_cut_off_example :
    Memᴰ IsolationState.forensic_preserved (visited IsolationState.free cut_off)
unfolding run transition_isolation_state
forensics_before_cut_off_example = forensics_before_cut_off cut_off refl

abbrev released : List IsolationState
released =
    IsolationState.free ∷ IsolationState.recovery_pending ∷ IsolationState.restored
    ∷ IsolationState.free ∷ []

recoverable_example :
    (run IsolationState.isolated (way_back IsolationState.isolated) ≡ IsolationState.free)
    ⊎ ((IsolationState.isolated ≡ IsolationState.failed)
        × (run IsolationState.isolated cut_off ≡ IsolationState.failed))
recoverable_example = recoverable IsolationState.isolated cut_off

abbrev seconds : ℕ → Micro
seconds n = micro_float.of_int (pos n)

abbrev token : SotRecord Micro
unfolding issue_sot
token =
    issue_sot "sot-1" (seconds 100) (seconds 100) "host-1" "machine" ("odd_login" ∷ "tor" ∷ [])
      "deep" none (pos 1800) true none

ended_for_good_example :
    let impact =
      evaluate_sot_impact
        (seconds 500)
        (updates (expire (seconds 400) ∷ []) (update (revoke (seconds 200) "reviewed") token)) in
    (impact.active ≡ false)
    × (impact.escalation_ready ≡ false)
    × (impact.trust_recovery_penalty ≡ micro_float.lit 0)
unfolding token ◌+ℤ◌ ◌*ℤ◌
ended_for_good_example =
    ended_for_good Micro-IsOrdered (revoke (seconds 200) "reviewed") (expire (seconds 400) ∷ [])
      token (seconds 500) refl refl
