-- ===== src/Meta/InRange/After.antt =====
-- What the registry of agents holds after any sequence of calls.
use c_e.Common.{Bool, String, List, [], ◌∷◌, Option, none-ne-some}
use c_e.Common.Dict.{Dict}
use c_e.Common.Float.{Float, IsOrdered}
use c_e.Meta.Agents.{
  Profiles, register_agent, update_runtime_trust, update_base_trust, with_base_trust, with_drift,
  with_accuracy, update_historical_accuracy, update_drift, with_outcome, record_case_outcome,
  case_trust_for,
}
use c_e.Meta.Trust.{TrustInput, compute_batch}
use c_e.Meta.InRange.{
  AreInRange, register_agent-AreInRange, update_runtime_trust-AreInRange, compute_batch-AreInRange,
  change-AreInRange, get_profile-IsInRange, with_base_trust-IsInRange, with_drift-IsInRange,
  with_accuracy-IsInRange, with_outcome-IsInRange,
}

pub data RegistryCall (F : Type 0) : Type 0 where
  registered : String → Dict F → Dict F → F → RegistryCall F
  runtime_updated base_updated drift_updated : String → F → RegistryCall F
  accuracy_updated : String → String → F → RegistryCall F
  outcome_recorded : String → String → Bool → F → RegistryCall F
  trust_asked : String → Option String → RegistryCall F
  batch_computed : List (TrustInput F) → RegistryCall F

module _ {F : Type 0} ⦃o : Float F⦄ (sum : List F → F) where
  unfoldable pub profiles_after : List (RegistryCall F) → Profiles F → Profiles F
  profiles_after [] profiles = profiles
  profiles_after (registered id capabilities specialties base ∷ calls) profiles =
      profiles_after calls (register_agent id capabilities specialties base profiles)
  profiles_after (runtime_updated id x ∷ calls) profiles =
      profiles_after calls (update_runtime_trust id x profiles)
  profiles_after (base_updated id x ∷ calls) profiles =
      profiles_after calls (update_base_trust id x profiles)
  profiles_after (drift_updated id x ∷ calls) profiles =
      profiles_after calls (update_drift id x profiles)
  profiles_after (accuracy_updated id specialty x ∷ calls) profiles =
      profiles_after calls (update_historical_accuracy id specialty x profiles)
  profiles_after (outcome_recorded id specialty correct confidence ∷ calls) profiles =
      profiles_after calls (record_case_outcome id specialty correct confidence profiles)
  profiles_after (trust_asked id specialty ∷ calls) profiles =
      profiles_after calls (case_trust_for sum id specialty profiles).1
  profiles_after (batch_computed inputs ∷ calls) profiles =
      profiles_after calls (compute_batch sum inputs profiles).1

module _ {F : Type 0} ⦃o : Float F⦄ (laws : IsOrdered F) (sum : List F → F) where
  after-AreInRange :
      (calls : List (RegistryCall F)) (profiles : Profiles F)
      → AreInRange profiles
      → AreInRange (profiles_after sum calls profiles)
  unfolding profiles_after update_base_trust update_drift update_historical_accuracy
      record_case_outcome case_trust_for
  after-AreInRange [] profiles h = h
  after-AreInRange (registered id capabilities specialties x ∷ calls) profiles h =
      after-AreInRange calls _
        (register_agent-AreInRange laws sum id capabilities specialties x profiles h)
  after-AreInRange (runtime_updated id x ∷ calls) profiles h =
      after-AreInRange calls _ (update_runtime_trust-AreInRange laws sum id x profiles h)
  after-AreInRange (base_updated id x ∷ calls) profiles h = after-AreInRange calls _ (
      change-AreInRange laws sum id (with_base_trust x) profiles
        (with_base_trust-IsInRange laws sum x) h)
  after-AreInRange (drift_updated id x ∷ calls) profiles h =
      after-AreInRange calls _
        (change-AreInRange laws sum id (with_drift x) profiles (with_drift-IsInRange laws sum x) h)
  after-AreInRange (accuracy_updated id specialty x ∷ calls) profiles h = after-AreInRange calls _ (
      change-AreInRange laws sum id (with_accuracy specialty x) profiles
        (with_accuracy-IsInRange laws sum specialty x) h)
  after-AreInRange (outcome_recorded id specialty correct confidence ∷ calls) profiles h =
      after-AreInRange calls _ (
        change-AreInRange laws sum id (with_outcome specialty correct confidence) profiles
          (with_outcome-IsInRange laws sum specialty correct confidence) h)
  after-AreInRange (trust_asked id specialty ∷ calls) profiles h =
      after-AreInRange calls _ (get_profile-IsInRange laws sum id profiles h).1
  after-AreInRange (batch_computed inputs ∷ calls) profiles h =
      after-AreInRange calls _ (compute_batch-AreInRange laws sum inputs profiles h)

  -- Given the order laws of floats: whatever calls are made on an empty registry of agents,
  -- registrations, updates, recorded outcomes and computed batches in any order and with any
  -- numbers, every base trust, runtime trust, drift, historical accuracy and recorded confidence
  -- in it is between 0 and 1.
  pub profiles_after-AreInRange :
      (calls : List (RegistryCall F)) → AreInRange (profiles_after sum calls [])
  profiles_after-AreInRange calls = after-AreInRange calls [] (λ k v e. absurd (none-ne-some e))
