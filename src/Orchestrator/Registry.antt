-- ===== src/Orchestrator/Registry.antt =====
-- What the model registry holds after any sequence of requests.
use c_e.Common.{
  Bool, true, ◌&&◌, String, List, [], ◌∷◌, Option, some, ◌≡◌, refl, ◌⊎◌, inl, inr, arith, str_eq,
  str_eq_iff, str_eq_refl, Bool-cases, Option-cases, none-ne-some, subst,
}
use c_e.Common.Dict.{Dict, lookup, lookup-insert, lookup-insert-same}
use c_e.Common.Float.{Float}
use c_e.Machine.Signing.{Signing, Manifest, ManifestSigner, sign}
use c_e.Orchestrator.{
  ModelCandidate, ModelEntry, ColabTrainingSync, Keys, evaluated, verify_manifest,
  verify_internal_token, verify_colab_signature, schema_matches, entry_of, mode_of,
  evaluate_candidate, promote_model, ingest_colab_training_result,
}

pub data Request (F J : Type 0) : Type 0 where
  promote : Option String → ModelCandidate F J → Request F J
  ingest : Option String → ColabTrainingSync F J → Request F J

module _ {J : Type 0} ⦃s : Signing J⦄ (keys : Keys) where
  signed_verifies :
      (signer : ManifestSigner) (body : Dict J) (manifest : Manifest J)
      → signer.key_material ≡ keys.signing_key
      → sign signer body ≡ some manifest
      → verify_manifest keys manifest ≡ true
  unfolding sign verify_manifest
  signed_verifies signer body manifest same signed = ground (
    arith,
    str_eq_refl (s.hexdigest keys.signing_key (s.dumps body)),
    str_eq_iff "hmac-sha256" signer.algorithm,
    str_eq_refl "hmac-sha256",
  )

module _ {F J : Type 0} ⦃o : Float F⦄ ⦃s : Signing J⦄ (keys : Keys) where
  unfoldable pub registry_after : List (Request F J) → Dict ModelEntry → Dict ModelEntry
  registry_after [] registry = registry
  registry_after (promote token req ∷ rest) registry =
      registry_after rest (promote_model keys token req registry).1
  registry_after (ingest signature req ∷ rest) registry =
      registry_after rest (ingest_colab_training_result keys signature req registry).1

  -- The candidate's manifest is signed with the orchestrator's key and names the schema of its
  -- features.
  abbrev IsSigned : ModelCandidate F J → Type 0
  IsSigned req = (verify_manifest keys req.signed_manifest ≡ true) × (schema_matches req ≡ true)

  -- The request may register the candidate: a caller of the internal API sent it, or a notebook
  -- with the shared secret whose result passed every gate and was reviewed by a human.
  abbrev MayRegister : Request F J → ModelCandidate F J → Type 0
  MayRegister (promote token req) candidate =
      (req ≡ candidate) × (verify_internal_token keys token ≡ true)
  MayRegister (ingest signature req) candidate =
      (req.candidate ≡ some candidate)
      × (verify_colab_signature s.hexdigest keys req.payload signature ≡ true)
      × (req.verification.status ≡ "verified")
      × (req.verification.novelty_gate_applied ≡ true)
      × (req.verification.known_attack_filter_applied ≡ true)
      × (req.verification.offensive_content_filtered ≡ true)
      × (req.verification.human_reviewed ≡ true)

  -- One of the requests may have registered the entry under the id.
  abbrev pub Registered : List (Request F J) → String → ModelEntry → Type 0
  Registered [] id entry = ⊥
  Registered (r ∷ rest) id entry =
      ((candidate : ModelCandidate F J) × MayRegister r candidate
        × IsSigned candidate
        × (candidate.model_id ≡ id)
        × (entry_of candidate ≡ entry))
      ⊎ Registered rest id entry

  candidate_step :
      (req : ModelCandidate F J) (registry : Dict ModelEntry) (id : String) (entry : ModelEntry)
      → lookup id (evaluate_candidate keys req registry).1 ≡ some entry
      → (lookup id registry ≡ some entry)
        ⊎ (IsSigned req × (req.model_id ≡ id) × (entry_of req ≡ entry))
  unfolding evaluate_candidate
  candidate_step req registry id entry found =
      ground
        (arith, lookup-insert req.model_id id (entry_of req) registry, str_eq_iff req.model_id id)

  promote_step :
      (token : Option String) (req : ModelCandidate F J) (registry : Dict ModelEntry) (id : String)
      (entry : ModelEntry)
      → lookup id (promote_model keys token req registry).1 ≡ some entry
      → (lookup id registry ≡ some entry)
        ⊎ ((candidate : ModelCandidate F J) × MayRegister (promote token req) candidate
            × IsSigned candidate
            × (candidate.model_id ≡ id)
            × (entry_of candidate ≡ entry))
  unfolding promote_model
  promote_step token req registry id entry found =
      elim (Bool-cases (verify_internal_token keys token)) [
        | inr refused ↦ inl (ground arith)
        | inl known ↦ elim (candidate_step req registry id entry (ground arith)) [
          | inl before ↦ inl before
          | inr (signed, same, made) ↦ inr (req, (refl, known), signed, same, made)
        ]
      ]

  abbrev gates : Option String → ColabTrainingSync F J → Bool
  gates signature req =
      let v = req.verification in
      verify_colab_signature s.hexdigest keys req.payload signature
      && str_eq v.status "verified"
      && v.novelty_gate_applied
      && v.known_attack_filter_applied
      && v.offensive_content_filtered
      && v.human_reviewed

  ingest_gates :
      (signature : Option String) (req : ColabTrainingSync F J) (registry : Dict ModelEntry)
      → ((ingest_colab_training_result keys signature req registry).1 ≡ registry)
        ⊎ ((candidate : ModelCandidate F J) × MayRegister (ingest signature req) candidate
            × ((ingest_colab_training_result keys signature req registry).1
                ≡ (evaluate_candidate keys candidate registry).1))
  unfolding ingest_colab_training_result
  ingest_gates signature req registry = elim (Option-cases req.candidate) [
    | inl alone ↦ inl (ground arith)
    | inr (candidate, there) ↦ elim (Bool-cases (gates signature req)) [
      | inl passed ↦
          inr
            (candidate, ground (arith, str_eq_iff req.verification.status "verified"), ground arith)
      | inr refused ↦ inl (ground arith)
    ]
  ]

  ingest_step :
      (signature : Option String) (req : ColabTrainingSync F J) (registry : Dict ModelEntry)
      (id : String) (entry : ModelEntry)
      → lookup id (ingest_colab_training_result keys signature req registry).1 ≡ some entry
      → (lookup id registry ≡ some entry)
        ⊎ ((candidate : ModelCandidate F J) × MayRegister (ingest signature req) candidate
            × IsSigned candidate
            × (candidate.model_id ≡ id)
            × (entry_of candidate ≡ entry))
  ingest_step signature req registry id entry found = elim (ingest_gates signature req registry) [
    | inl same ↦ inl (subst (λ r. lookup id r ≡ some entry) same found)
    | inr (candidate, may, evaluated_by) ↦
        elim (candidate_step candidate registry id entry
          (subst (λ r. lookup id r ≡ some entry) evaluated_by found)) [
            | inl before ↦ inl before
            | inr (signed, same, made) ↦ inr (candidate, may, signed, same, made)
          ]
  ]

  registry_after_from :
      (requests : List (Request F J)) (registry : Dict ModelEntry) (id : String)
      (entry : ModelEntry)
      → lookup id (registry_after requests registry) ≡ some entry
      → (lookup id registry ≡ some entry) ⊎ Registered requests id entry
  unfolding registry_after
  registry_after_from [] registry id entry found = inl found
  registry_after_from (promote token req ∷ rest) registry id entry found =
      elim (registry_after_from rest (promote_model keys token req registry).1 id entry found) [
        | inr later ↦ inr (inr later)
        | inl after ↦ elim (promote_step token req registry id entry after) [
          | inl before ↦ inl before
          | inr now ↦ inr (inl now)
        ]
      ]
  registry_after_from (ingest signature req ∷ rest) registry id entry found =
      elim (registry_after_from rest (ingest_colab_training_result keys signature req registry).1 id
        entry found) [
          | inr later ↦ inr (inr later)
          | inl after ↦ elim (ingest_step signature req registry id entry after) [
            | inl before ↦ inl before
            | inr now ↦ inr (inl now)
          ]
        ]

  -- Whatever requests arrive at an empty registry, every entry found in it is that of a candidate
  -- with this model id whose manifest is signed with the orchestrator's key and names its feature
  -- schema, and the request that brought it was either a promotion by a caller with the internal
  -- token or a training result with a valid shared-secret signature that is verified, passed the
  -- novelty, known-attack and offensive-content gates and was reviewed by a human.
  pub registry_after_lem :
      (requests : List (Request F J)) (id : String) (entry : ModelEntry)
      → lookup id (registry_after requests []) ≡ some entry
      → Registered requests id entry
  registry_after_lem requests id entry found =
      elim (registry_after_from requests [] id entry found) [
        | inl before ↦ absurd (none-ne-some before)
        | inr since ↦ since
      ]

  -- A candidate whose manifest a machine's signer made with the orchestrator's key, over a body
  -- that names the candidate's feature schema, is accepted from a caller with the internal token,
  -- and the registry then has its entry under its id.
  pub signed_candidate_registered :
      (signer : ManifestSigner) (body : Dict J) (token : Option String) (req : ModelCandidate F J)
      (registry : Dict ModelEntry)
      → signer.key_material ≡ keys.signing_key
      → sign signer body ≡ some req.signed_manifest
      → schema_matches req ≡ true
      → verify_internal_token keys token ≡ true
      → ((promote_model keys token req registry).0
          ≡ evaluated (mode_of req) (str_eq (mode_of req) "promote"))
        × (lookup req.model_id (promote_model keys token req registry).1 ≡ some (entry_of req))
  unfolding promote_model evaluate_candidate
  signed_candidate_registered signer body token req registry same signed matches known =
      let ok : verify_manifest keys req.signed_manifest ≡ true =
        signed_verifies keys signer body req.signed_manifest same signed in
      (ground arith, ground (arith, lookup-insert-same req.model_id (entry_of req) registry))
