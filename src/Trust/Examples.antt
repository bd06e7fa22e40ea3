-- ===== src/Trust/Examples.antt =====
-- Scores and evaluations on concrete evidences.
use c_e.Core.Sot.{SotRecord, SotImpact}
use c_e.Core.Sot.Lifecycle.{Update, expire, revoke}
use c_e.Trust.Tokens.{
  ApiCaller, TokenCall, change, impact_is, impact_endpoint, records_after, ended_token_stays_ended,
}
use c_e.Common.{
  ℕ, ◌≤◌, true, false, String, [], ◌∷◌, List, some, none, ◌≡◌, ◌≢◌, refl, length, filter,
  str_eq_iff, arith,
}
use c_e.Common.Int.{pos, ◌*ℤ◌, ◌-ℤ◌, ◌+ℤ◌, div_ℕ}
use c_e.Common.Float.{Micro, micro_float, Micro-IsOrdered, ◌≼◌}
use c_e.Core.Contracts.{SecurityEvidence, ResponseEligibility, RiskEnvelope}
use c_e.Trust.Scorer.{
  ThreatLevel, score_evidences, threat_level_for, response_eligibility_for, weigh_evidences,
  impact_of, freshness_of,
}
use c_e.Trust.Scorer.Evidence.{is_strong}
use c_e.Trust.Evaluate.{
  Profile, Body, decided, internal_evaluate, retained, envelope_of, current_profile, rescored,
}
use c_e.Trust.Evaluate.Profiles.{
  Request, handle, profiles_after, profiles_in_range, remediation_needs_two_strong,
}

abbrev seconds : ℕ → Micro
seconds n = micro_float.of_int (pos n)

abbrev evidence : (source signal_type : String) → SecurityEvidence Micro
evidence source signal_type = record {
  entity_id = "host-1";
  source = source;
  signal_type = signal_type;
  severity = micro_float.lit 900_000;
  confidence = micro_float.lit 950_000;
  timestamp = seconds 1000;
  ttl = 3600;
}

abbrev dumps : List (SecurityEvidence Micro)
dumps =
    evidence "falco_rule" "credential_dump"
    ∷ evidence "falco_rule" "lateral_movement"
    ∷ evidence "auditd_exec" "priv_esc"
    ∷ evidence "auditd_exec" "persistence"
    ∷ evidence "auditd_connect" "beacon"
    ∷ []

abbrev body : Body Micro
body = record {
  entity_id = "host-1";
  entity_type = none;
  action = none;
  evidences = dumps;
  resource_context = some "critical";
  criticality = none;
  blast_radius = some 30;
  crown_jewels_exposed = false;
  scopes = none;
  environment = none;
}

abbrev envelope : RiskEnvelope Micro
unfolding envelope_of
envelope = envelope_of body (seconds 15) 5 3 5

abbrev request : Request Micro
request = record {
  edge_enabled = false;
  created = seconds 999;
  now = seconds 1000;
  saved = seconds 1001;
  body = body;
}

abbrev score_after : Micro
score_after = (score_evidences (seconds 1000) (seconds 85) dumps "critical").0

abbrev saved : Profile Micro
saved = record {
  entity_type = "machine";
  score = score_after;
  threat_level = ThreatLevel.critical;
  response_eligibility = ResponseEligibility.approval_gated;
  updated_at = seconds 1001;
}

profiles_in_range_example :
    (micro_float.lit 0 ≼ saved.score) × (saved.score ≼ micro_float.lit 100_000_000)
unfolding profiles_after handle internal_evaluate current_profile rescored score_evidences
    weigh_evidences impact_of freshness_of threat_level_for response_eligibility_for envelope_of
    ◌*ℤ◌ ◌-ℤ◌ ◌+ℤ◌ div_ℕ
profiles_in_range_example = profiles_in_range Micro-IsOrdered (request ∷ []) "host-1" saved refl

apart : ◌≢◌ {A = String} "host-2" "host-1"
apart e = ground (arith, str_eq_iff "host-2" "host-1")

abbrev signals : List String
signals = "credential_dump" ∷ "lateral_movement" ∷ "priv_esc" ∷ "persistence" ∷ "beacon" ∷ []

remediation_needs_two_strong_example :
    (request.body.entity_id ≡ request.body.entity_id)
    × (score_after ≡ (handle [] request).0.score_after)
    × (micro_float.lt score_after (micro_float.lit 55_000_000) ≡ true)
    × (2 ≤ length (filter is_strong (retained false dumps)))
unfolding profiles_after handle internal_evaluate current_profile rescored score_evidences
    weigh_evidences impact_of freshness_of threat_level_for response_eligibility_for envelope_of
    ◌*ℤ◌ ◌-ℤ◌ ◌+ℤ◌ div_ℕ
remediation_needs_two_strong_example =
    remediation_needs_two_strong [] request "host-1" score_after signals
      (decided "host-1" score_after ThreatLevel.critical ResponseEligibility.approval_gated) refl

abbrev token : SotRecord Micro
token = record {
  token_id = "sot-1";
  entity_id = "host-1";
  entity_type = "machine";
  reason_codes = "odd_login" ∷ "tor" ∷ [];
  observation_level = "deep";
  restrictions = [];
  issued_at = micro_float.lit 100_000_000;
  expires_at = micro_float.lit 1_900_000_000;
  renewable = true;
  revoked_at = none;
  metadata = [];
}

abbrev operator : ApiCaller
operator = record { expected = "secret"; header = "secret" }

abbrev stranger : ApiCaller
stranger = record { expected = "secret"; header = "" }

abbrev revocation : Update Micro
revocation = revoke (micro_float.lit 200_000_000) "reviewed"

abbrev afterwards : List (TokenCall Micro)
afterwards =
    change operator "sot-1" (expire (micro_float.lit 300_000_000))
    ∷ change stranger "sot-1" (revoke (micro_float.lit 400_000_000) "again")
    ∷ []

ended_token_stays_ended_example :
    (impact : SotImpact Micro) × (impact_endpoint
        (records_after (change operator "sot-1" revocation ∷ afterwards) (("sot-1", token) ∷ []))
        operator
        "sot-1"
        (micro_float.lit 500_000_000)
      ≡ impact_is impact)
    × (impact.active ≡ false)
    × (impact.escalation_ready ≡ false)
ended_token_stays_ended_example =
    ended_token_stays_ended Micro-IsOrdered (("sot-1", token) ∷ []) operator operator "sot-1"
      revocation token afterwards (micro_float.lit 500_000_000) refl refl refl refl refl tt
