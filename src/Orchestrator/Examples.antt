-- ===== src/Orchestrator/Examples.antt =====
-- Model candidates and assessments on concrete inputs.
use c_e.Common.{true, String, List, [], ◌∷◌, none, some, ◌≡◌, refl, str_eq, if◌then◌else◌}
use c_e.Common.Dict.{Dict, lookup}
use c_e.Common.Float.{Micro, micro_float}
use c_e.Machine.Signing.{Signing, Manifest, ManifestSigner, object, sign}
use c_e.Orchestrator.{
  ModelCandidate, ColabTrainingSync, Keys, evaluated, entry_of, mode_of, promote_model,
  verify_manifest, verify_internal_token, ingest_colab_training_result, verify_colab_signature,
  evaluate_candidate,
}
use c_e.Orchestrator.Registry.{
  Request, promote, ingest, registry_after, Registered, registry_after_lem,
  signed_candidate_registered,
}
use c_e.Orchestrator.Assess.{AgentSignal, AssessmentRequest}

-- JSON values that are texts, and a digest that names the key.
abbrev flat : Dict String → String
flat [] = ""
flat ((k, v) ∷ d) = v

instance abbrev plain_signing : Signing String
plain_signing = record {
  hexdigest = λ key payload. if str_eq key "k" then payload else "-";
  dumps = flat;
  is_text = str_eq;
}

abbrev keys : Keys
keys = record { internal_token = "t"; signing_key = "k"; colab_secret = "k" }

abbrev signer : ManifestSigner
signer = record { algorithm = "hmac-sha256"; key_material = "k" }

abbrev schema : Dict String
schema = ("feature_schema_hash", "h-1") ∷ []

abbrev manifest : Manifest String
manifest = record { algorithm = "hmac-sha256"; body = object schema; signature = "h-1" }

abbrev candidate : String → ModelCandidate Micro String
candidate id = record {
  model_id = id;
  tenant_scope = "t-1";
  machine_scope = "*";
  feature_schema_hash = "h-1";
  signed_manifest = manifest;
  evaluation_report =
      ("shadow_vs_champion_delta", micro_float.lit 150_000)
      ∷ ("baseline_stability_score", micro_float.lit 900_000)
      ∷ [];
  rollback_pointer = none;
}

abbrev training : ColabTrainingSync Micro String
training = record {
  run_id = "run-1";
  training_plan_id = "plan-1";
  verification = record {
    status = "verified";
    novelty_gate_applied = true;
    offensive_content_filtered = true;
    known_attack_filter_applied = true;
    human_reviewed = true;
  };
  candidate = some (candidate "m-2");
  payload = "p";
}

abbrev requests : List (Request Micro String)
requests = promote none (candidate "m-1") ∷ ingest (some "p") training ∷ []

registry_after_lem_example : Registered keys requests "m-2" (entry_of (candidate "m-2"))
unfolding registry_after ingest_colab_training_result verify_colab_signature evaluate_candidate
    verify_manifest promote_model verify_internal_token
registry_after_lem_example =
    registry_after_lem keys requests "m-2" (entry_of (candidate "m-2")) refl

signed_candidate_registered_example :
    ((promote_model keys (some "t") (candidate "m-1") []).0
      ≡ evaluated (mode_of (candidate "m-1")) (str_eq (mode_of (candidate "m-1")) "promote"))
    × (lookup "m-1" (promote_model keys (some "t") (candidate "m-1") []).1
        ≡ some (entry_of (candidate "m-1")))
unfolding sign verify_internal_token
signed_candidate_registered_example =
    signed_candidate_registered keys signer schema (some "t") (candidate "m-1") [] refl refl refl
      refl

-- A candidate whose gain and stability are no numbers is promoted.
not_numbers_promoted :
    mode_of (record (candidate "m-1") {
      evaluation_report =
          ("shadow_vs_champion_delta", none) ∷ ("baseline_stability_score", none) ∷ [];
    })
    ≡ "promote"
unfolding mode_of
not_numbers_promoted = refl

abbrev signal : AgentSignal Micro
signal = record {
  agent_id = "a-1";
  specialty = "identity_graph";
  risk_signal = micro_float.lit 900_000;
  runtime_trust = micro_float.lit 800_000;
  uncertainty = micro_float.lit 100_000;
  data_quality = micro_float.lit 800_000;
  reasoning_quality = micro_float.lit 700_000;
}

abbrev assessed : AssessmentRequest Micro
assessed = record {
  novelty_score = micro_float.lit 200_000;
  asset_criticality = micro_float.lit 500_000;
  blast_radius = micro_float.lit 500_000;
  crown_jewel = true;
  signals = signal ∷ [];
}

abbrev absolute : Micro → Micro
absolute x =
    if micro_float.lt x (micro_float.lit 0) then micro_float.sub (micro_float.lit 0) x else x

abbrev total : List Micro → Micro
total [] = micro_float.lit 0
total (x ∷ xs) = micro_float.add x (total xs)
