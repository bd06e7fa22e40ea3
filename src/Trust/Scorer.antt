-- ===== src/Trust/Scorer.antt =====
-- services/cortex-trust-engine/cortex_trust_engine/scorer.py, with the enumerations of models.py.
-- The integer score is a Python `int`, the evidence score a `float`. `now` is the `time.time()` that
-- `score_evidences` reads once.
use c_e.Common.{
  ℕ, ◌+◌, Bool, true, false, not, ◌&&◌, ◌||◌, String, List, [], ◌∷◌, map, leb, ltb, if◌then◌else◌,
  length, contains,
}
use c_e.Common.Int.{ℤ, pos, neg, ◌+ℤ◌, ltb_ℤ, leb_ℤ}
use c_e.Common.Dict.{Dict, get_or}
use c_e.Common.Float.{Float, fmax, fmin, clamp}
use c_e.Core.Contracts.{
  SecurityEvidence, RiskEnvelope, ResponseEligibility, is_unavailable, is_irreversible,
}
pub mod Integer
pub mod Evidence
pub mod Levels

pub data TrustDecision : Type 0 where
  allow monitor restricted deny revoke : TrustDecision

pub data ThreatLevel : Type 0 where
  low elevated high critical : ThreatLevel

abbrev positive_factors : Dict ℤ
positive_factors =
    ("mfa_verified", pos 15)
    ∷ ("passkey_used", pos 12)
    ∷ ("device_compliant", pos 10)
    ∷ ("known_network", pos 8)
    ∷ ("normal_working_hours", pos 5)
    ∷ ("recent_successful_auth", pos 5)
    ∷ ("long_term_account", pos 3)
    ∷ ("low_privilege_requested", pos 3)
    ∷ []

abbrev negative_factors : Dict ℤ
negative_factors =
    ("new_device", neg 20)
    ∷ ("impossible_travel", neg 40)
    ∷ ("failed_mfa_attempts", neg 15)
    ∷ ("anomalous_api_pattern", neg 10)
    ∷ ("privilege_escalation", neg 25)
    ∷ ("off_hours_access", neg 8)
    ∷ ("vpn_or_tor", neg 10)
    ∷ ("high_risk_resource_access", neg 5)
    ∷ ("agent_behavioral_deviation", neg 15)
    ∷ ("stale_credentials", neg 8)
    ∷ ("unusual_volume", neg 12)
    ∷ []

-- `max(a, b)` and `min(a, b)`
abbrev pub max_ℤ : ℤ → ℤ → ℤ
max_ℤ a b = if ltb_ℤ a b then b else a

abbrev pub min_ℤ : ℤ → ℤ → ℤ
min_ℤ a b = if ltb_ℤ b a then b else a

pub positive : String → ℤ
positive factor = get_or factor (pos 0) positive_factors

pub negative : String → ℤ
negative factor = get_or factor (pos 0) negative_factors

-- The loop over the factors.
pub add_factors : ℤ → List String → ℤ
add_factors score [] = score
add_factors score (factor ∷ factors) =
    add_factors (score +ℤ positive factor +ℤ negative factor) factors

unfoldable pub compute_score : ℤ → List String → ℤ
compute_score base_score factors = max_ℤ (pos 0) (min_ℤ (pos 100) (add_factors base_score factors))

pub make_decision : ℤ → TrustDecision
make_decision score =
    if leb_ℤ (pos 80) score
    then TrustDecision.allow
    else if leb_ℤ (pos 60) score
    then TrustDecision.monitor
    else if leb_ℤ (pos 40) score
    then TrustDecision.restricted
    else if leb_ℤ (pos 20) score
    then TrustDecision.deny
    else TrustDecision.revoke

-- A set of texts, as the list of its elements.
abbrev pub distinct : List String → List String
distinct [] = []
distinct (s ∷ rest) = if contains s rest then distinct rest else s ∷ distinct rest

module _ {F : Type 0} ⦃o : Float F⦄ where
  open o use {lit, of_int, lt, le, add, sub, mul, div, round}

  abbrev source_trust : Dict F
  source_trust =
      ("falco_rule", lit 900_000)
      ∷ ("auditd_exec", lit 850_000)
      ∷ ("auditd_connect", lit 800_000)
      ∷ ("psutil_process", lit 650_000)
      ∷ ("bloodhound", lit 800_000)
      ∷ ("edge_inference", lit 700_000)
      ∷ ("mcp", lit 600_000)
      ∷ []

  abbrev pub criticality_amplifier : Dict F
  criticality_amplifier =
      ("normal", lit 1_000_000) ∷ ("high", lit 1_250_000) ∷ ("critical", lit 1_500_000) ∷ []

  unfoldable pub freshness_of : F → SecurityEvidence F → F
  freshness_of now e = fmax (lit 100_000) (
      sub (lit 1_000_000) (
        div (fmax (lit 0) (sub now e.timestamp)) (of_int (pos (if ltb e.ttl 1 then 1 else e.ttl)))))

  unfoldable pub impact_of : F → F → SecurityEvidence F → F
  impact_of now amplifier e =
      mul
        (mul
          (mul (mul e.severity (fmin e.confidence (get_or e.source (lit 500_000) source_trust)))
            (freshness_of now e))
          amplifier)
        (lit 12_000_000)

  -- The loop: the score and the count of strong signals.
  unfoldable pub weigh_evidences : F → F → F × ℕ → List (SecurityEvidence F) → F × ℕ
  weigh_evidences now amplifier acc [] = acc
  weigh_evidences now amplifier (score, strong) (e ∷ evidences) =
      weigh_evidences now amplifier
        (if le (lit 600_000) e.severity
          then (sub score (impact_of now amplifier e), strong + 1)
          else (add score (mul (impact_of now amplifier e) (lit 200_000)), strong))
        evidences

  -- The score, the distinct sources and the strong signals.
  unfoldable pub score_evidences : F → F → List (SecurityEvidence F) → String → F × ℕ × ℕ
  score_evidences now base_score evidences criticality =
      let amplifier : F = get_or criticality (lit 1_000_000) criticality_amplifier in
      let (score, strong) = weigh_evidences now amplifier (base_score, 0) evidences in
      (
        clamp (lit 0) (lit 100_000_000) (round 2 score),
        length (distinct (map (λ e. e.source) evidences)),
        strong,
      )

  unfoldable pub threat_level_for : F → ℕ → ThreatLevel
  threat_level_for score strong_signals =
      if lt score (lit 20_000_000) || leb 3 strong_signals
      then ThreatLevel.critical
      else if lt score (lit 40_000_000) || leb 2 strong_signals
      then ThreatLevel.high
      else if lt score (lit 70_000_000) || leb 1 strong_signals
      then ThreatLevel.elevated
      else ThreatLevel.low

  unfoldable pub response_eligibility_for : RiskEnvelope F → ResponseEligibility
  response_eligibility_for e =
      if is_unavailable e.dependencies.approval && is_irreversible e.action_class
      then ResponseEligibility.reversible_only
      else if ltb e.strong_signal_count 2
      then ResponseEligibility.monitor_only
      else if e.crown_jewels_exposed || ltb 25 e.blast_radius
      then ResponseEligibility.approval_gated
      else if lt e.trust_score (lit 20_000_000) && leb 2 e.distinct_sources
      then ResponseEligibility.approval_gated
      else if lt e.trust_score (lit 40_000_000) && leb 2 e.distinct_sources
      then ResponseEligibility.reversible_only
      else ResponseEligibility.monitor_only
