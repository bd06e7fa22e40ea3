-- ===== src/Machine/Guard.antt =====
-- `LearningGuard` of learning_guard/guard.py. The sums of squares and `math.sqrt` are those of the
-- float library: `norm` is an argument that maps the values of `delta` to their norm.
use c_e.Common.{
  Bool, true, false, not, ◌&&◌, String, List, [], ◌∷◌, ◌++◌, map, ◌≡◌, ◌↔◌, arith, if◌then◌else◌,
  any, contains, str_eq_refl, subst, sym,
}
use c_e.Common.Dict.{Dict}
use c_e.Common.Float.{Float}

pub record LocalUpdate (F : Type 0) : Type 0 where
  pub model_id : String
  pub machine_id : String
  pub tenant_id : String
  pub feature_schema_hash : String
  pub metrics : Dict F
  pub delta : Dict F
  pub dataset_fingerprint : String
  pub signed_by : String
  pub suspicion_score : F
  pub replay_nonce : String

pub record LearningGuardDecision (F : Type 0) : Type 0 where
  pub accepted : Bool
  pub quarantined : Bool
  pub confidence_penalty : F
  pub reasons : List String

-- The other arguments of `evaluate`.
pub record Context (F : Type 0) : Type 0 where
  pub machine_compromised : Bool
  pub labels_inconsistent : Bool
  pub corroborated : Bool
  pub reference_degradation : F

abbrev reason_if : Bool → String → List String
reason_if b reason = if b then reason ∷ [] else []

module _ {F : Type 0} ⦃o : Float F⦄ (norm : List F → F) where
  open o use {lit, lt, add, round}

  abbrev norm_of : LocalUpdate F → F
  norm_of u = norm (map (λ entry. entry.1) u.delta)

  guard_reasons : (seen_nonces : List String) → LocalUpdate F → Context F → List String
  guard_reasons seen_nonces u c =
      reason_if (contains u.replay_nonce seen_nonces) "replay_detected"
      ++ (reason_if c.machine_compromised "machine_compromised"
          ++ (reason_if c.labels_inconsistent "labels_inconsistent"
              ++ (reason_if (not c.corroborated) "missing_corroboration"
                  ++ (reason_if (lt (lit 3_000_000) (norm_of u)) "delta_out_of_envelope"
                      ++ (reason_if (lt (lit 600_000) u.suspicion_score) "self_suspicion_high"
                          ++ reason_if (lt (lit 50_000) c.reference_degradation) "roni_failed")))))

  abbrev add_if : Bool → F → F → F
  add_if b n x = if b then add x n else x

  -- The additions in the order of the tests.
  penalty_of : LocalUpdate F → Context F → F
  penalty_of u c = add_if (lt (lit 600_000) u.suspicion_score) (lit 150_000) (
      add_if (lt (lit 3_000_000) (norm_of u)) (lit 250_000) (
        add_if (not c.corroborated) (lit 150_000)
          (add_if c.labels_inconsistent (lit 200_000) (lit 0))))

  -- The decision, and the nonces seen from then on.
  pub evaluate_update :
      (seen_nonces : List String)
      → LocalUpdate F
      → Context F
      → LearningGuardDecision F × List String
  evaluate_update seen_nonces u c =
      let reasons : List String = guard_reasons seen_nonces u c in
      let quarantined : Bool =
        any
          (λ reason.
            contains reason ("machine_compromised" ∷ "roni_failed" ∷ "replay_detected" ∷ []))
          reasons in
      (
        record {
          accepted = not quarantined && not (contains "delta_out_of_envelope" reasons);
          quarantined = quarantined;
          confidence_penalty = round 4 (penalty_of u c);
          reasons = reasons;
        },
        u.replay_nonce ∷ seen_nonces,
      )

  -- An update is accepted exactly when its nonce is new, the machine is not compromised, its norm is
  -- at most 3 and the reference degradation at most 0.05, as the float comparisons say; labels,
  -- corroboration and suspicion lower the confidence and never refuse.
  accepted_iff :
      (seen_nonces : List String) (u : LocalUpdate F) (c : Context F)
      → ((evaluate_update seen_nonces u c).0.accepted ≡ true) ↔ (
          (contains u.replay_nonce seen_nonces ≡ false)
          × (c.machine_compromised ≡ false)
          × (lt (lit 3_000_000) (norm_of u) ≡ false)
          × (lt (lit 50_000) c.reference_degradation ≡ false))
  unfolding evaluate_update guard_reasons
  accepted_iff seen_nonces u c = ground arith

  -- The nonces seen after a list of updates.
  pub seen_after : List String → List (LocalUpdate F × Context F) → List String
  unfolding evaluate_update
  seen_after seen [] = seen
  seen_after seen ((u, c) ∷ rest) = seen_after (evaluate_update seen u c).1 rest

  seen_after-contains :
      (seen : List String) (rest : List (LocalUpdate F × Context F)) (nonce : String)
      → contains nonce seen ≡ true
      → contains nonce (seen_after seen rest) ≡ true
  unfolding seen_after
  seen_after-contains seen [] nonce h = h
  seen_after-contains seen ((u, c) ∷ rest) nonce h =
      seen_after-contains (u.replay_nonce ∷ seen) rest nonce (ground arith)

  replay-quarantined :
      (seen : List String) (u : LocalUpdate F) (c : Context F)
      → contains u.replay_nonce seen ≡ true
      → ((evaluate_update seen u c).0.accepted ≡ false)
        × ((evaluate_update seen u c).0.quarantined ≡ true)
  unfolding evaluate_update guard_reasons
  replay-quarantined seen u c h = ground arith

  -- A replayed update is quarantined and not accepted, whatever updates come between the two uses of
  -- its nonce and whether or not the first was accepted.
  pub replay_refused :
      (seen : List String) (u : LocalUpdate F) (c : Context F)
      → (between : List (LocalUpdate F × Context F)) (v : LocalUpdate F) (d : Context F)
      → v.replay_nonce ≡ u.replay_nonce
      → let decision = (evaluate_update (seen_after seen ((u, c) ∷ between)) v d).0 in
        (decision.accepted ≡ false) × (decision.quarantined ≡ true)
  unfolding seen_after evaluate_update
  replay_refused seen u c between v d same =
      replay-quarantined (seen_after (u.replay_nonce ∷ seen) between) v d (
        subst (λ n. contains n (seen_after (u.replay_nonce ∷ seen) between) ≡ true) (sym same)
          (seen_after-contains (u.replay_nonce ∷ seen) between u.replay_nonce
            (ground (arith, str_eq_refl u.replay_nonce))))
