-- ===== src/Core/Isolation/Paths.antt =====
-- What every sequence of requested transitions does, from the table of state_machine.py.
use mathlib.Core.List.{Memᴰ}
use c_e.Common.{Bool, true, false, List, [], ◌∷◌, ◌≡◌, refl, sym, ◌⊎◌, inl, inr, arith}
use c_e.Core.Isolation.{IsolationState, transition_isolation_state}

abbrev request : IsolationState → IsolationState → IsolationState
request s new = (transition_isolation_state s new "request").to_state

-- The state after all the requests, refused ones included.
unfoldable pub run : IsolationState → List IsolationState → IsolationState
run s [] = s
run s (new ∷ rest) = run (request s new) rest

-- The states that the requests lead through.
pub visited : IsolationState → List IsolationState → List IsolationState
visited s [] = []
visited s (new ∷ rest) = request s new ∷ visited (request s new) rest

abbrev is_cut_off : IsolationState → Bool
is_cut_off IsolationState.identity_revoked = true
is_cut_off IsolationState.isolated = true
is_cut_off _ = false

abbrev is_preserved_or_cut_off : IsolationState → Bool
is_preserved_or_cut_off IsolationState.forensic_preserved = true
is_preserved_or_cut_off s = is_cut_off s

abbrev is_contained : IsolationState → Bool
is_contained IsolationState.quarantined = true
is_contained IsolationState.recovery_pending = true
is_contained IsolationState.failed = true
is_contained s = is_preserved_or_cut_off s

request_preserves :
    (s new : IsolationState)
    → is_preserved_or_cut_off s ≡ false
    → (request s new ≡ IsolationState.forensic_preserved)
      ⊎ (is_preserved_or_cut_off (request s new) ≡ false)
unfolding transition_isolation_state
request_preserves s new h = ground arith

cut_off_needs_forensics :
    (s : IsolationState) (requests : List IsolationState)
    → is_preserved_or_cut_off s ≡ false
    → is_cut_off (run s requests) ≡ true
    → Memᴰ IsolationState.forensic_preserved (visited s requests)
unfolding run visited
cut_off_needs_forensics s [] h c = ground arith
cut_off_needs_forensics s (new ∷ rest) h c = elim (request_preserves s new h) [
  | inl p ↦ Memᴰ.head (sym p)
  | inr q ↦ Memᴰ.tail (cut_off_needs_forensics (request s new) rest q c)
]

-- From `free`, whatever transitions are requested, an entity whose identity is revoked or that is
-- isolated has been through `forensic_preserved`.
pub forensics_before_cut_off :
    (requests : List IsolationState)
    → is_cut_off (run IsolationState.free requests) ≡ true
    → Memᴰ IsolationState.forensic_preserved (visited IsolationState.free requests)
forensics_before_cut_off requests c = cut_off_needs_forensics IsolationState.free requests refl c

request_contained :
    (s new : IsolationState)
    → is_contained s ≡ true
    → (request s new ≡ IsolationState.restored) ⊎ (is_contained (request s new) ≡ true)
unfolding transition_isolation_state
request_contained s new h = ground arith

-- A contained entity leaves containment through `restored` only: if requests lead from a contained
-- state to one that is not contained, they lead through `restored`.
release_needs_restored :
    (s : IsolationState) (requests : List IsolationState)
    → is_contained s ≡ true
    → is_contained (run s requests) ≡ false
    → Memᴰ IsolationState.restored (visited s requests)
unfolding run visited
release_needs_restored s [] h c = ground arith
release_needs_restored s (new ∷ rest) h c = elim (request_contained s new h) [
  | inl p ↦ Memᴰ.head (sym p)
  | inr q ↦ Memᴰ.tail (release_needs_restored (request s new) rest q c)
]

request_failed : (new : IsolationState) → request IsolationState.failed new ≡ IsolationState.failed
unfolding transition_isolation_state
request_failed new = ground arith

run_failed :
    (requests : List IsolationState) → run IsolationState.failed requests ≡ IsolationState.failed
unfolding run
run_failed [] = refl
run_failed (new ∷ rest) = ground (arith, request_failed new, run_failed rest)

-- The requests that bring a state back to `free` the shortest way.
abbrev pub way_back : IsolationState → List IsolationState
way_back IsolationState.free = []
way_back IsolationState.monitored = IsolationState.free ∷ []
way_back IsolationState.suspected = IsolationState.monitored ∷ IsolationState.free ∷ []
way_back IsolationState.observation = IsolationState.monitored ∷ IsolationState.free ∷ []
way_back IsolationState.restricted =
    IsolationState.observation ∷ IsolationState.monitored ∷ IsolationState.free ∷ []
way_back IsolationState.quarantined =
    IsolationState.recovery_pending ∷ IsolationState.restored ∷ IsolationState.free ∷ []
way_back IsolationState.identity_revoked =
    IsolationState.isolated ∷ IsolationState.recovery_pending ∷ IsolationState.restored
    ∷ IsolationState.free ∷ []
way_back IsolationState.forensic_preserved =
    IsolationState.isolated ∷ IsolationState.recovery_pending ∷ IsolationState.restored
    ∷ IsolationState.free ∷ []
way_back IsolationState.isolated =
    IsolationState.recovery_pending ∷ IsolationState.restored ∷ IsolationState.free ∷ []
way_back IsolationState.recovery_pending = IsolationState.restored ∷ IsolationState.free ∷ []
way_back IsolationState.restored = IsolationState.free ∷ []
way_back IsolationState.failed = []

-- `failed` is the one dead end: a state either is `failed`, and no requests lead out of it, or the
-- requests of `way_back` lead from it to `free`.
pub recoverable :
    (s : IsolationState) (requests : List IsolationState)
    → (run s (way_back s) ≡ IsolationState.free)
      ⊎ ((s ≡ IsolationState.failed) × (run s requests ≡ IsolationState.failed))
unfolding run transition_isolation_state
recoverable IsolationState.failed requests = inr (refl, run_failed requests)
recoverable IsolationState.free requests = inl refl
recoverable _ requests = inl refl
