-- ===== src/Meta/Agents.antt =====
-- cortex/meta_decision/agent_trust_registry.py: the profiles of the agents, by id. The builtin
-- `sum` is an argument; the snapshots copy what they show and are left out.
use c_e.Common.{
  Bool, String, List, [], ◌∷◌, ◌++◌, map, Option, none, some, if◌then◌else◌, length, is_empty,
  str_eq,
}
use c_e.Common.Int.{pos}
use c_e.Common.Dict.{Dict, lookup, get_or, insert}
use c_e.Common.Float.{Float}
use c_e.Meta.{unit_clamp}

-- An entry of the performance history.
pub record CaseOutcome (F : Type 0) : Type 0 where
  pub specialty : String
  pub correct : F
  pub confidence : F
  pub updated_accuracy : F

pub record AgentProfile (F : Type 0) : Type 0 where
  pub agent_id : String
  pub capabilities : Dict F
  pub historical_accuracy : Dict F
  pub specialties : Dict F
  pub base_trust : F
  pub drift_score : F
  pub runtime_trust : F
  pub performance_history : List (CaseOutcome F)

abbrev pub Profiles : Type 0 → Type 0
Profiles F = Dict (AgentProfile F)

module _ {F : Type 0} ⦃o : Float F⦄ where
  abbrev pub new_profile : String → AgentProfile F
  new_profile id = record {
    agent_id = id;
    capabilities = [];
    historical_accuracy = [];
    specialties = [];
    base_trust = o.lit 500_000;
    drift_score = o.lit 0;
    runtime_trust = o.lit 500_000;
    performance_history = [];
  }

  -- `capabilities.update(…)`
  abbrev pub update : Dict F → Dict F → Dict F
  update d [] = d
  update d ((k, v) ∷ given) = update (insert k v d) given

  -- The profile found or made; `setdefault` keeps the one it makes.
  abbrev pub get_profile : String → Profiles F → AgentProfile F × Profiles F
  get_profile id profiles = elim (lookup id profiles) [
    | none ↦ (new_profile id, insert id (new_profile id) profiles)
    | some profile ↦ (profile, profiles)
  ]

  -- The profile, changed in place.
  abbrev pub change : String → (AgentProfile F → AgentProfile F) → Profiles F → Profiles F
  change id f profiles = let (profile, kept) = get_profile id profiles in insert id (f profile) kept

  -- An absent dict of capabilities or specialties counts as an empty one.
  unfoldable pub register_agent : String → Dict F → Dict F → F → Profiles F → Profiles F
  register_agent id capabilities specialties base_trust profiles = elim (lookup id profiles) [
    | none ↦
        insert id
          (record (new_profile id) {
            capabilities = capabilities;
            specialties = specialties;
            base_trust = unit_clamp base_trust;
            runtime_trust = unit_clamp base_trust;
          })
          profiles
    | some profile ↦
        insert id
          (record profile {
            capabilities = update profile.capabilities capabilities;
            specialties = update profile.specialties specialties;
            base_trust = unit_clamp base_trust;
          })
          profiles
  ]

  abbrev pub with_runtime_trust : F → AgentProfile F → AgentProfile F
  with_runtime_trust x profile = record profile { runtime_trust = unit_clamp x }

  abbrev pub with_base_trust : F → AgentProfile F → AgentProfile F
  with_base_trust x profile = record profile { base_trust = unit_clamp x }

  abbrev pub with_drift : F → AgentProfile F → AgentProfile F
  with_drift x profile = record profile { drift_score = unit_clamp x }

  abbrev pub with_accuracy : String → F → AgentProfile F → AgentProfile F
  with_accuracy specialty x profile = record profile {
    historical_accuracy = insert specialty (unit_clamp x) profile.historical_accuracy;
  }

  unfoldable pub update_runtime_trust : String → F → Profiles F → Profiles F
  update_runtime_trust id x = change id (with_runtime_trust x)

  unfoldable pub update_base_trust : String → F → Profiles F → Profiles F
  update_base_trust id x = change id (with_base_trust x)

  unfoldable pub update_historical_accuracy : String → String → F → Profiles F → Profiles F
  update_historical_accuracy id specialty x = change id (with_accuracy specialty x)

  unfoldable pub update_drift : String → F → Profiles F → Profiles F
  update_drift id x = change id (with_drift x)

  -- 0.85 of the accuracy so far, or of the base trust, and 0.15 of the outcome.
  abbrev pub updated_accuracy_of : AgentProfile F → String → F → F
  updated_accuracy_of profile specialty observed = unit_clamp (
      o.add
        (o.mul (o.lit 850_000) (get_or specialty profile.base_trust profile.historical_accuracy))
        (o.mul (o.lit 150_000) observed))

  abbrev pub with_outcome : String → Bool → F → AgentProfile F → AgentProfile F
  with_outcome specialty correct confidence profile =
      let observed = if correct then o.lit 1_000_000 else o.lit 0 in
      let updated = updated_accuracy_of profile specialty observed in
      record profile {
        historical_accuracy = insert specialty updated profile.historical_accuracy;
        performance_history =
            profile.performance_history
            ++ record {
              specialty = specialty;
              correct = observed;
              confidence = unit_clamp confidence;
              updated_accuracy = updated;
            }
              ∷ [];
      }

  unfoldable pub record_case_outcome : String → String → Bool → F → Profiles F → Profiles F
  record_case_outcome id specialty correct confidence =
      change id (with_outcome specialty correct confidence)

  module _ (sum : List F → F) where
    abbrev mean_accuracy : AgentProfile F → F
    mean_accuracy profile =
        let values = map (λ entry. entry.1) profile.historical_accuracy in
        if is_empty values
        then unit_clamp profile.base_trust
        else unit_clamp (o.div (sum values) (o.of_int (pos (length values))))

    abbrev pub trust_in : AgentProfile F → Option String → F
    trust_in profile none = mean_accuracy profile
    trust_in profile (some specialty) = elim (lookup specialty profile.specialties) [
      | none ↦ mean_accuracy profile
      | some weight ↦
          if str_eq specialty ""
          then mean_accuracy profile
          else unit_clamp (
              o.add (o.mul (o.lit 600_000) weight) (
                o.mul (o.lit 400_000)
                  (get_or specialty profile.base_trust profile.historical_accuracy)))
    ]

    unfoldable pub case_trust_for : String → Option String → Profiles F → F × Profiles F
    case_trust_for id specialty profiles =
        let (profile, kept) = get_profile id profiles in (trust_in profile specialty, kept)
