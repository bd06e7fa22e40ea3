-- ===== src/Trust/Evaluate.antt =====
-- services/cortex-trust-engine/cortex_trust_engine/main.py: `_internal_evaluate` and the profile
-- store behind it, and the `/v1/evaluate` and `/trust/evaluate/v2` decisions. The values of the
-- request's body are of the types they are read at, and a negative blast radius, at which the
-- envelope raises, is left out. The readings of the clock are arguments, and
-- what is published is a list of messages, without their timestamps.
use c_e.Common.{
  ℕ, ◌+◌, Bool, true, false, not, ◌&&◌, ◌||◌, String, List, [], ◌∷◌, ◌++◌, Option, none, some, map,
  filter, if◌then◌else◌, length, str_eq,
}
use c_e.Common.Int.{ℤ}
use c_e.Common.Dict.{Dict, lookup, insert, get_or}
use c_e.Common.Float.{Float}
use c_e.Core.Contracts.{
  SecurityEvidence, RiskEnvelope, ResponseEligibility, ActionClass, CapabilityMaturity,
  DependencyState, DependencyHealthSnapshot,
}
use c_e.Trust.Scorer.{
  ThreatLevel, TrustDecision, score_evidences, threat_level_for, response_eligibility_for,
  compute_score, make_decision,
}
pub mod Profiles

pub record Profile (F : Type 0) : Type 0 where
  pub entity_type : String
  pub score : F
  pub threat_level : ThreatLevel
  pub response_eligibility : ResponseEligibility
  pub updated_at : F

-- The entries of `body` that are read, each absent or of its type.
pub record Body (F : Type 0) : Type 0 where
  pub entity_id : String
  pub entity_type : Option String
  pub action : Option String
  pub evidences : List (SecurityEvidence F)
  pub resource_context : Option String
  pub criticality : Option String
  pub blast_radius : Option ℕ
  pub crown_jewels_exposed : Bool
  pub scopes : Option (List String)
  pub environment : Option String

pub data Message (F : Type 0) : Type 0 where
  -- `cortex.trust.decisions` and `cortex.agents.tasks.remediation`
  decided : (entity_id : String) → F → ThreatLevel → ResponseEligibility → Message F
  prepare_issue_sot : (entity_id : String) → F → (reasons : List String) → Message F

pub record Evaluated (F : Type 0) : Type 0 where
  pub entity_id : String
  pub score_after : F
  pub threat_level : ThreatLevel
  pub response_eligibility : ResponseEligibility
  pub evidence_count : ℕ
  pub distinct_sources : ℕ
  pub strong_signals : ℕ

-- `d.get(k, default)` of a key that may be absent.
abbrev or_default {ℓ} : {A : Type ℓ} → Option A → A → A
or_default none default = default
or_default (some a) default = a

-- The contract's default, since the envelope is given no dependencies.
abbrev unknown_dependencies : DependencyHealthSnapshot
unknown_dependencies = record {
  nats = DependencyState.unknown;
  neo4j = DependencyState.unknown;
  bloodhound = DependencyState.unknown;
  vault = DependencyState.unknown;
  spire = DependencyState.unknown;
  approval = DependencyState.unknown;
  sentinel = DependencyState.unknown;
  external_llm = DependencyState.unknown;
}

-- `in {REVERSIBLE_ONLY, APPROVAL_GATED}`
abbrev pub is_actionable : ResponseEligibility → Bool
is_actionable ResponseEligibility.reversible_only = true
is_actionable ResponseEligibility.approval_gated = true
is_actionable _ = false

module _ {F : Type 0} ⦃o : Float F⦄ where
  open o use {lit, lt}

  abbrev new_profile : Option String → F → Profile F
  new_profile kind now = record {
    entity_type = or_default kind "machine";
    score = lit 85_000_000;
    threat_level = ThreatLevel.low;
    response_eligibility = ResponseEligibility.nothing;
    updated_at = now;
  }

  -- The evidences kept: without edge inference, none of that source.
  abbrev pub retained :
      (edge_enabled : Bool) → List (SecurityEvidence F) → List (SecurityEvidence F)
  retained edge_enabled = filter (λ e. edge_enabled || not (str_eq e.source "edge_inference"))

  unfoldable pub envelope_of :
      Body F → F → (evidence_count distinct_sources strong_signals : ℕ) → RiskEnvelope F
  envelope_of b score count sources strong = record {
    entity_id = b.entity_id;
    entity_type = or_default b.entity_type "machine";
    action = or_default b.action "trust_evaluate";
    action_class = ActionClass.advisory;
    trust_score = score;
    threat_level =
        if lt score (lit 20_000_000)
        then 5
        else if lt score (lit 40_000_000)
        then 4
        else if lt score (lit 70_000_000)
        then 2
        else 1;
    evidence_count = count;
    strong_signal_count = strong;
    distinct_sources = sources;
    blast_radius = or_default b.blast_radius 0;
    crown_jewels_exposed = b.crown_jewels_exposed;
    criticality = or_default b.criticality "normal";
    scopes = or_default b.scopes [];
    environment = or_default b.environment "preprod";
    dry_run = false;
    maturity = CapabilityMaturity.beta;
    derived_signals = [];
    dependencies = unknown_dependencies;
    evidences = [];
  }

  -- The profile of the entity, made when it is missing.
  unfoldable pub current_profile : Dict (Profile F) → (created : F) → Body F → Profile F
  current_profile profiles created b =
      get_or b.entity_id (new_profile b.entity_type created) profiles

  -- The new score, the distinct sources and the strong signals.
  unfoldable pub rescored :
      Dict (Profile F) → (edge_enabled : Bool) → (created now : F) → Body F → F × ℕ × ℕ
  unfolding current_profile
  rescored profiles edge_enabled created now b =
      score_evidences now (current_profile profiles created b).score
        (retained edge_enabled b.evidences)
        (or_default b.resource_context (or_default b.criticality "normal"))

  -- `created`, `now` and `saved` are the readings of the clock where a profile is made, where the
  -- evidences are scored and where the profile is saved.
  unfoldable pub internal_evaluate :
      Dict (Profile F)
      → (edge_enabled : Bool) → (created now saved : F) → Body F
      → Evaluated F × List (Message F) × Dict (Profile F)
  internal_evaluate profiles edge_enabled created now saved b =
      let evidences : List (SecurityEvidence F) = retained edge_enabled b.evidences in
      let (score, sources, strong) = rescored profiles edge_enabled created now b in
      let eligibility : ResponseEligibility =
        response_eligibility_for (envelope_of b score (length evidences) sources strong) in
      let level : ThreatLevel = threat_level_for score strong in
      (
        record {
          entity_id = b.entity_id;
          score_after = score;
          threat_level = level;
          response_eligibility = eligibility;
          evidence_count = length evidences;
          distinct_sources = sources;
          strong_signals = strong;
        },
        (decided b.entity_id score level eligibility
            ∷ (if lt score (lit 55_000_000) && is_actionable eligibility
                then prepare_issue_sot b.entity_id score
                    (map (λ e. e.signal_type) (filter (λ e. lt (lit 500_000) e.severity) evidences))
                  ∷ []
                else [])),
        insert b.entity_id
            (record (current_profile profiles created b) {
              score = score;
              threat_level = level;
              response_eligibility = eligibility;
              updated_at = saved;
            })
            profiles,
      )

-- `/v1/evaluate`: the score and the decision on it.
evaluate_v1 : ℤ → List String → ℤ × TrustDecision
evaluate_v1 base_score factors =
    (compute_score base_score factors, make_decision (compute_score base_score factors))
