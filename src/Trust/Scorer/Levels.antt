-- ===== src/Trust/Scorer/Levels.antt =====
-- Threat levels and response eligibility.
use c_e.Common.{ℕ, ◌≤◌, ◌⊎◌, true, ◌≡◌, ◌≢◌, arith, tests}
use c_e.Common.Float.{Float, IsOrdered, ◌≼◌}
use c_e.Core.Contracts.{RiskEnvelope, ResponseEligibility, DependencyState, ActionClass}
use c_e.Trust.Scorer.{ThreatLevel, threat_level_for, response_eligibility_for}

abbrev pub rank : ThreatLevel → ℕ
rank ThreatLevel.low = 0
rank ThreatLevel.elevated = 1
rank ThreatLevel.high = 2
rank ThreatLevel.critical = 3

module _ {F : Type 0} ⦃o : Float F⦄ where
  lt-antitone : (laws : IsOrdered F) (a b c : F) → a ≼ b → c ≼ c → o.lt b c ≡ true → o.lt a c ≡ true
  lt-antitone laws a b c h num p = ground (
    arith,
    laws.le_of_not_lt c a num (laws.refl_of_le a b h).0,
    laws.le_trans c a b,
    laws.not_lt_of_le c b,
  )

  -- Given the order laws of floats: the threat level does not fall when the score falls or strong
  -- signals are added.
  pub threat_level_for-monotone :
      (laws : IsOrdered F) (a b : F) (few many : ℕ)
      → a ≼ b
      → few ≤ many
      → rank (threat_level_for b few) ≤ rank (threat_level_for a many)
  unfolding threat_level_for
  threat_level_for-monotone laws a b few many h k = grind (
    tests,
    lt-antitone laws a b (o.lit 20_000_000) h (laws.lit_mono _ _ (omega arith)),
    lt-antitone laws a b (o.lit 40_000_000) h (laws.lit_mono _ _ (omega arith)),
    lt-antitone laws a b (o.lit 70_000_000) h (laws.lit_mono _ _ (omega arith)),
  )

  -- Only an envelope with two strong signals, or an irreversible action while approvals are
  -- unavailable, makes an entity eligible for more than monitoring, and it never
  -- makes it eligible for an autonomous response.
  pub eligible_needs_evidence :
      (e : RiskEnvelope F)
      → response_eligibility_for e ≢ ResponseEligibility.monitor_only
      → (response_eligibility_for e ≢ ResponseEligibility.autonomous_allowed)
        × ((2 ≤ e.strong_signal_count)
            ⊎ ((e.dependencies.approval ≡ DependencyState.unavailable)
                × (e.action_class ≡ ActionClass.irreversible)))
  unfolding response_eligibility_for
  eligible_needs_evidence e more = (ground arith, ground arith)
