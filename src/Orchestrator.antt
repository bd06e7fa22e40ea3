-- ===== src/Orchestrator.antt =====
-- services/cortex-orchestrator/cortex_orchestrator/main.py: the registry of promoted models, fed by
-- the promotion endpoint and by the training results that a notebook sends. The environment's keys
-- are arguments; the audit files are left out.
pub mod Registry
pub mod Assess
pub mod Examples
use c_e.Common.{
  ℕ, Bool, true, false, not, ◌&&◌, ◌||◌, String, List, [], ◌∷◌, Option, none, some, if◌then◌else◌,
  str_eq,
}
use c_e.Common.Int.{ℤ, pos}
use c_e.Common.Dict.{Dict, lookup, get_or, insert}
use c_e.Common.Float.{Float}
use c_e.Machine.Signing.{Signing, Manifest, ManifestBody, object_of}

pub record ModelCandidate (F J : Type 0) : Type 0 where
  pub model_id : String
  pub tenant_scope : String
  pub machine_scope : String
  pub feature_schema_hash : String
  pub signed_manifest : Manifest J
  pub evaluation_report : Dict F
  pub rollback_pointer : Option String

pub record ModelEntry : Type 0 where
  pub tenant_scope : String
  pub machine_scope : String
  pub mode : String
  pub rollback_pointer : Option String

pub record ColabVerification : Type 0 where
  pub status : String
  pub novelty_gate_applied : Bool
  pub offensive_content_filtered : Bool
  pub known_attack_filter_applied : Bool
  pub human_reviewed : Bool

-- `payload` is the canonical JSON of the fields that were set.
pub record ColabTrainingSync (F J : Type 0) : Type 0 where
  pub run_id : String
  pub training_plan_id : String
  pub verification : ColabVerification
  pub candidate : Option (ModelCandidate F J)
  pub payload : String

pub data Outcome : Type 0 where
  rejected : String → Outcome
  -- The mode, and whether the model is promoted.
  evaluated : String → Bool → Outcome
  -- A training result without a candidate, and with what became of its candidate.
  ingested_alone : Outcome
  ingested : Outcome → Outcome

pub record Keys : Type 0 where
  pub internal_token : String
  pub signing_key : String
  pub colab_secret : String

abbrev schema_of : {J : Type 0} → ManifestBody J → Option J
schema_of body = elim (object_of body) [ none ↦ none | some d ↦ lookup "feature_schema_hash" d ]

-- `bool(token) and token == expected`
pub verify_internal_token : Keys → Option String → Bool
verify_internal_token keys none = false
verify_internal_token keys (some token) = not (str_eq token "") && str_eq token keys.internal_token

module _ {J : Type 0} ⦃s : Signing J⦄ where
  pub verify_manifest : Keys → Manifest J → Bool
  verify_manifest keys manifest =
      if not (str_eq manifest.algorithm "hmac-sha256")
      then false
      else elim (object_of manifest.body) [
        | none ↦ false
        | some body ↦ str_eq manifest.signature (s.hexdigest keys.signing_key (s.dumps body))
      ]

-- `if not signature`, then the comparison of the digests
pub verify_colab_signature : (String → String → String) → Keys → String → Option String → Bool
verify_colab_signature hexdigest keys payload none = false
verify_colab_signature hexdigest keys payload (some signature) =
    not (str_eq signature "") && str_eq signature (hexdigest keys.colab_secret payload)

module _ {F J : Type 0} ⦃o : Float F⦄ ⦃s : Signing J⦄ where
  -- `body.get("feature_schema_hash") == feature_schema_hash`
  abbrev pub schema_matches : ModelCandidate F J → Bool
  schema_matches req = elim (schema_of req.signed_manifest.body) [
    | none ↦ false
    | some hash ↦ s.is_text hash req.feature_schema_hash
  ]

  abbrev gain_of : ModelCandidate F J → F
  gain_of req = get_or "shadow_vs_champion_delta" (o.lit 0) req.evaluation_report

  abbrev stability_of : ModelCandidate F J → F
  stability_of req = get_or "baseline_stability_score" (o.lit 0) req.evaluation_report

  unfoldable pub mode_of : ModelCandidate F J → String
  mode_of req =
      if o.le (gain_of req) (o.lit 0) || o.lt (stability_of req) (o.lit 600_000)
      then "shadow"
      else if o.lt (gain_of req) (o.lit 100_000)
      then "canary"
      else "promote"

  abbrev pub entry_of : ModelCandidate F J → ModelEntry
  entry_of req = record {
    tenant_scope = req.tenant_scope;
    machine_scope = req.machine_scope;
    mode = mode_of req;
    rollback_pointer = req.rollback_pointer;
  }

  pub evaluate_candidate : Keys → ModelCandidate F J → Dict ModelEntry → Outcome × Dict ModelEntry
  evaluate_candidate keys req registry =
      if not (verify_manifest keys req.signed_manifest)
      then (rejected "invalid_manifest_signature", registry)
      else if not (schema_matches req)
      then (rejected "feature_schema_mismatch", registry)
      else (
        evaluated (mode_of req) (str_eq (mode_of req) "promote"),
        insert req.model_id (entry_of req) registry,
      )

  pub promote_model :
      Keys → Option String → ModelCandidate F J → Dict ModelEntry → Outcome × Dict ModelEntry
  promote_model keys token req registry =
      if not (verify_internal_token keys token)
      then (rejected "internal_api_auth_required", registry)
      else evaluate_candidate keys req registry

  abbrev has_candidate : Option (ModelCandidate F J) → Bool
  has_candidate none = false
  has_candidate (some _) = true

  pub ingest_colab_training_result :
      Keys → Option String → ColabTrainingSync F J → Dict ModelEntry → Outcome × Dict ModelEntry
  ingest_colab_training_result keys signature req registry =
      let v = req.verification in
      if not (verify_colab_signature s.hexdigest keys req.payload signature)
      then (rejected "invalid_colab_signature", registry)
      else if not (str_eq v.status "verified")
      then (rejected "verification_not_passed", registry)
      else if not v.novelty_gate_applied
      then (rejected "novelty_gate_required", registry)
      else if not v.known_attack_filter_applied
      then (rejected "known_attack_filter_required", registry)
      else if not v.offensive_content_filtered
      then (rejected "offensive_filter_required", registry)
      else if has_candidate req.candidate && not v.human_reviewed
      then (rejected "candidate_requires_human_review", registry)
      else elim req.candidate [
        | none ↦ (ingested_alone, registry)
        | some candidate ↦
            let (outcome, registry') = evaluate_candidate keys candidate registry in
            (ingested outcome, registry')
      ]
