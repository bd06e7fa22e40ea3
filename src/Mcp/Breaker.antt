-- ===== src/Mcp/Breaker.antt =====
-- `class CircuitBreaker` of router.py.
use c_e.Common.{
  ℕ, suc, ◌+◌, ◌≤◌, Bool, true, false, List, [], ◌∷◌, ◌≡◌, ◌↔◌, leb, if◌then◌else◌, arith,
}

pub data BreakerState : Type 0 where
  closed open_circuit : BreakerState

pub record CircuitBreaker : Type 0 where
  pub failures : ℕ
  pub state : BreakerState

abbrev failure_threshold : ℕ
failure_threshold = 3

abbrev pub new_breaker : CircuitBreaker
new_breaker = record { failures = 0; state = BreakerState.closed }

abbrev pub is_open : CircuitBreaker → Bool
is_open b = elim b.state [ BreakerState.open_circuit ↦ true | BreakerState.closed ↦ false ]

pub record_success : CircuitBreaker → CircuitBreaker
record_success b = record { failures = 0; state = BreakerState.closed }

pub record_failure : CircuitBreaker → CircuitBreaker
record_failure b =
    let failures : ℕ = b.failures + 1 in
    if leb failure_threshold failures
    then record { failures = failures; state = BreakerState.open_circuit }
    else record { failures = failures; state = b.state }

pub data Outcome : Type 0 where
  success failure : Outcome

-- The breaker after a history of outcomes, the latest first.
pub after : List Outcome → CircuitBreaker
after [] = new_breaker
after (Outcome.success ∷ past) = record_success (after past)
after (Outcome.failure ∷ past) = record_failure (after past)

-- How many failures there have been since the last success.
abbrev pub streak : List Outcome → ℕ
streak [] = 0
streak (Outcome.success ∷ past) = 0
streak (Outcome.failure ∷ past) = suc (streak past)

after-streak :
    (history : List Outcome)
    → ((after history).failures ≡ streak history)
      × ((is_open (after history) ≡ true) ↔ (3 ≤ streak history))
unfolding after record_success record_failure
after-streak [] = ground arith
after-streak (Outcome.success ∷ past) = ground arith
after-streak (Outcome.failure ∷ past) = ground (arith, after-streak past)

-- Over every history the circuit is open exactly when the last three outcomes or more were
-- failures: a single success closes it, and it stays open until one.
is_open_iff_streak :
    (history : List Outcome) → (is_open (after history) ≡ true) ↔ (3 ≤ streak history)
is_open_iff_streak history = (after-streak history).1
