-- ===== src/Meta/InRange.antt =====
-- The calls on the registry of agents keep every profile in range.
pub mod After
use c_e.Common.{
  Bool, Bool-cases, true, String, List, [], ◌∷◌, ◌++◌, Option, none, some, ◌≡◌, arith, inl, inr,
  All, Option-cases, none-ne-some,
}
use c_e.Common.Dict.{Dict, lookup, insert, Holds, insert-Holds}
use c_e.Common.Float.{Float, IsOrdered, InUnit, lit-InUnit, clamp-InUnit}
use c_e.Meta.{unit_clamp}
use c_e.Meta.Agents.{
  CaseOutcome, AgentProfile, Profiles, new_profile, get_profile, change, register_agent,
  update_runtime_trust, update_base_trust, with_runtime_trust, with_base_trust, with_drift,
  with_accuracy, update_historical_accuracy, update_drift, updated_accuracy_of, with_outcome,
  record_case_outcome, case_trust_for,
}
use c_e.Meta.Trust.{
  TrustInput, TrustComputation, Criteria, compute_item, compute_agent_trust, compute_from,
  compute_batch,
}

-- Every trust, accuracy, drift and confidence of a profile is between 0 and 1. Its capabilities and
-- specialties are as registered.
pub record IsInRange {F : Type 0} ⦃o : Float F⦄ (profile : AgentProfile F) : Type 0 where
  pub base : InUnit profile.base_trust
  pub runtime : InUnit profile.runtime_trust
  pub drift : InUnit profile.drift_score
  pub accuracy : Holds (λ specialty x. InUnit x) profile.historical_accuracy
  pub history :
      All
        (λ entry. InUnit entry.confidence × InUnit entry.correct × InUnit entry.updated_accuracy)
        profile.performance_history

abbrev pub AreInRange : {F : Type 0} ⦃o : Float F⦄ → Profiles F → Type 0
AreInRange = Holds (λ id profile. IsInRange profile)

All-snoc :
    {A : Type 0} (P : A → Type 0) (xs : List A) (x : A) → All P xs → P x → All P (xs ++ x ∷ [])
All-snoc P [] x h p = (p, tt)
All-snoc P (y ∷ xs) x (q, h) p = (q, All-snoc P xs x h p)

module _ {F : Type 0} ⦃o : Float F⦄ (laws : IsOrdered F) (sum : List F → F) where
  unit : (x : F) → InUnit (unit_clamp x)
  unit = clamp-InUnit laws

  new_profile-IsInRange : (id : String) → IsInRange (new_profile {F = F} id)
  new_profile-IsInRange id = record {
    base = lit-InUnit laws 500_000 (omega arith);
    runtime = lit-InUnit laws 500_000 (omega arith);
    drift = lit-InUnit laws 0 (omega arith);
    accuracy = λ k x e. absurd (none-ne-some e);
    history = tt;
  }

  get_profile-IsInRange :
      (id : String) (profiles : Profiles F)
      → AreInRange profiles
      → IsInRange (get_profile id profiles).0 × AreInRange (get_profile id profiles).1
  get_profile-IsInRange id profiles h = elim (Option-cases (lookup id profiles)) [
    | inl e ↦
        rw (get_profile, e)
          (
            new_profile-IsInRange id,
            insert-Holds _ id (new_profile id) profiles (new_profile-IsInRange id) h,
          )
    | inr (profile, e) ↦ rw (get_profile, e) (h id profile e, h)
  ]

  change-AreInRange :
      (id : String) (f : AgentProfile F → AgentProfile F) (profiles : Profiles F)
      → ((profile : AgentProfile F) → IsInRange profile → IsInRange (f profile))
      → AreInRange profiles
      → AreInRange (change id f profiles)
  change-AreInRange id f profiles keeps h =
      let (at, kept) = get_profile-IsInRange id profiles h in
      insert-Holds _ id _ (get_profile id profiles).1 (keeps _ at) kept

  register_agent-AreInRange :
      (id : String) (capabilities specialties : Dict F) (x : F) (profiles : Profiles F)
      → AreInRange profiles
      → AreInRange (register_agent id capabilities specialties x profiles)
  unfolding register_agent
  register_agent-AreInRange id capabilities specialties x profiles h =
      elim (Option-cases (lookup id profiles)) [
        | inl e ↦
            let new = new_profile-IsInRange id in
            rw (register_agent, e)
              (insert-Holds _ id _ profiles
                (record {
                  base = unit x;
                  runtime = unit x;
                  drift = new.drift;
                  accuracy = new.accuracy;
                  history = tt;
                })
                h)
        | inr (profile, e) ↦
            let known = h id profile e in
            rw (register_agent, e)
              (insert-Holds _ id _ profiles
                (record {
                  base = unit x;
                  runtime = known.runtime;
                  drift = known.drift;
                  accuracy = known.accuracy;
                  history = known.history;
                })
                h)
      ]

  with_outcome-IsInRange :
      (specialty : String) (correct : Bool) (confidence : F) (profile : AgentProfile F)
      → IsInRange profile
      → IsInRange (with_outcome specialty correct confidence profile)
  with_outcome-IsInRange specialty correct confidence profile p = record {
    base = p.base;
    runtime = p.runtime;
    drift = p.drift;
    accuracy =
        insert-Holds (λ k x. InUnit x) specialty _ profile.historical_accuracy (unit _) p.accuracy;
    history = All-snoc _ profile.performance_history _ p.history (
      unit confidence,
      elim (Bool-cases correct) [
        | inl e ↦ rw e (lit-InUnit laws 1_000_000 (omega arith))
        | inr e ↦ rw e (lit-InUnit laws 0 (omega arith))
      ],
      unit _,
    );
  }

  with_runtime_trust-IsInRange :
      (x : F) (profile : AgentProfile F)
      → IsInRange profile
      → IsInRange (with_runtime_trust x profile)
  with_runtime_trust-IsInRange x profile p = record {
    base = p.base;
    runtime = unit x;
    drift = p.drift;
    accuracy = p.accuracy;
    history = p.history;
  }

  with_base_trust-IsInRange :
      (x : F) (profile : AgentProfile F) → IsInRange profile → IsInRange (with_base_trust x profile)
  with_base_trust-IsInRange x profile p = record {
    base = unit x;
    runtime = p.runtime;
    drift = p.drift;
    accuracy = p.accuracy;
    history = p.history;
  }

  with_drift-IsInRange :
      (x : F) (profile : AgentProfile F) → IsInRange profile → IsInRange (with_drift x profile)
  with_drift-IsInRange x profile p = record {
    base = p.base;
    runtime = p.runtime;
    drift = unit x;
    accuracy = p.accuracy;
    history = p.history;
  }

  with_accuracy-IsInRange :
      (specialty : String) (x : F) (profile : AgentProfile F)
      → IsInRange profile
      → IsInRange (with_accuracy specialty x profile)
  with_accuracy-IsInRange specialty x profile p = record {
    base = p.base;
    runtime = p.runtime;
    drift = p.drift;
    accuracy =
        insert-Holds (λ k y. InUnit y) specialty (unit_clamp x) profile.historical_accuracy (unit x)
          p.accuracy;
    history = p.history;
  }

  update_runtime_trust-AreInRange :
      (id : String) (x : F) (profiles : Profiles F)
      → AreInRange profiles
      → AreInRange (update_runtime_trust id x profiles)
  unfolding update_runtime_trust
  update_runtime_trust-AreInRange id x profiles =
      change-AreInRange id (with_runtime_trust x) profiles (with_runtime_trust-IsInRange x)

  compute_item-AreInRange :
      (item : TrustInput F) (profiles : Profiles F)
      → AreInRange profiles
      → AreInRange (compute_item sum item profiles).1
  unfolding compute_item compute_agent_trust case_trust_for
  compute_item-AreInRange item profiles h =
      let made = (get_profile-IsInRange item.agent_id profiles h).1 in
      let again = (get_profile-IsInRange item.agent_id _ made).1 in
      update_runtime_trust-AreInRange item.agent_id _ _
        (get_profile-IsInRange item.agent_id _ again).1

  compute_from-AreInRange :
      (items : List (TrustInput F)) (done : TrustComputation F) (profiles : Profiles F)
      → AreInRange profiles
      → AreInRange (compute_from sum items done profiles).1
  compute_from-AreInRange [] done profiles h = h
  compute_from-AreInRange (item ∷ items) done profiles h =
      compute_from-AreInRange items _ _ (compute_item-AreInRange item profiles h)

  pub compute_batch-AreInRange :
      (items : List (TrustInput F)) (profiles : Profiles F)
      → AreInRange profiles
      → AreInRange (compute_batch sum items profiles).1
  unfolding compute_batch
  compute_batch-AreInRange items profiles h = compute_from-AreInRange items _ profiles h
