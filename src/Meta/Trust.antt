-- ===== src/Meta/Trust.antt =====
-- The trust in an agent for a case and what corrects it: decision_trust_engine.py,
-- confidence_calibration.py and case_complexity_engine.py of cortex/meta_decision. The weights are
-- the engine's constants; the builtin `sum` is an argument.
use c_e.Common.{Bool, ◌||◌, String, List, [], ◌∷◌, Option, none, some, if◌then◌else◌, str_eq}
use c_e.Common.Dict.{Dict, lookup, get_or, insert}
use c_e.Common.Float.{Float, fmax}
use c_e.Meta.{unit_clamp}
use c_e.Meta.Agents.{Profiles, get_profile, update_runtime_trust, case_trust_for}

-- The criteria in the order in which they are summed.
pub record Criteria (F : Type 0) : Type 0 where
  pub base_trust : F
  pub runtime_trust : F
  pub case_trust : F
  pub historical_accuracy : F
  pub uncertainty : F
  pub data_quality : F
  pub reasoning_quality : F

-- An item of a batch, whose missing values have defaults.
pub record TrustInput (F : Type 0) : Type 0 where
  pub agent_id : String
  pub specialty : Option String
  pub runtime_trust : Option F
  pub uncertainty : Option F
  pub data_quality : Option F
  pub reasoning_quality : Option F

pub record TrustComputation (F : Type 0) : Type 0 where
  pub agent_case_trust : Dict F
  pub trust_matrix : Dict (Criteria F)

abbrev or_else {ℓ} : {A : Type ℓ} → A → Option A → A
or_else x none = x
or_else x (some y) = y

-- `specialty or "global"`
abbrev accuracy_key : Option String → String
accuracy_key none = "global"
accuracy_key (some specialty) = if str_eq specialty "" then "global" else specialty

module _ {F : Type 0} ⦃o : Float F⦄ where
  abbrev weigh : Criteria F → F
  weigh c =
      o.add
        (o.add
          (o.add
            (o.add
              (o.add
                (o.add (o.add (o.lit 0) (o.mul (o.lit 180_000) c.base_trust))
                  (o.mul (o.lit 160_000) c.runtime_trust))
                (o.mul (o.lit 180_000) c.case_trust))
              (o.mul (o.lit 160_000) c.historical_accuracy))
            (o.mul (o.sub (o.lit 0) (o.lit 120_000)) c.uncertainty))
          (o.mul (o.lit 140_000) c.data_quality))
        (o.mul (o.lit 180_000) c.reasoning_quality)

  -- `DecisionTrustEngine.weights`, over clamped criteria
  unfoldable pub trust_of : Criteria F → F
  trust_of c = unit_clamp (weigh c)

  module _ (sum : List F → F) where
    -- The criteria that the registry knows, the others still to be filled in.
    abbrev pub resolve_profile : String → Option String → Profiles F → (F × F × F × F) × Profiles F
    resolve_profile id specialty profiles =
        let (profile, made) = get_profile id profiles in
        let (case_trust, kept) = case_trust_for sum id specialty made in
        (
          (
            unit_clamp profile.base_trust,
            unit_clamp profile.runtime_trust,
            unit_clamp case_trust,
            unit_clamp (get_or (accuracy_key specialty) case_trust profile.historical_accuracy),
          ),
          kept,
        )

    unfoldable pub compute_agent_trust :
        String → Option String → Option F → F → F → F → Profiles F → (F × Criteria F) × Profiles F
    compute_agent_trust id specialty runtime uncertainty data_quality reasoning_quality profiles =
        let ((base, known_runtime, case_trust, accuracy), kept) =
          resolve_profile id specialty profiles in
        let criteria : Criteria F = record {
          base_trust = base;
          runtime_trust = elim runtime [ none ↦ known_runtime | some x ↦ unit_clamp x ];
          case_trust = case_trust;
          historical_accuracy = accuracy;
          uncertainty = unit_clamp uncertainty;
          data_quality = unit_clamp data_quality;
          reasoning_quality = unit_clamp reasoning_quality;
        } in
        (
          (trust_of criteria, criteria),
          elim runtime [ none ↦ kept | some x ↦ update_runtime_trust id x kept ],
        )

    -- One item: its default runtime trust is that of the profile, found or made.
    unfoldable pub compute_item : TrustInput F → Profiles F → (F × Criteria F) × Profiles F
    compute_item item profiles =
        let (profile, made) = get_profile item.agent_id profiles in
        compute_agent_trust item.agent_id item.specialty
          (some (or_else profile.runtime_trust item.runtime_trust))
          (or_else (o.lit 0) item.uncertainty) (or_else (o.lit 500_000) item.data_quality)
          (or_else (o.lit 500_000) item.reasoning_quality) made

    abbrev pub compute_from :
        List (TrustInput F) → TrustComputation F → Profiles F → TrustComputation F × Profiles F
    compute_from [] done profiles = (done, profiles)
    compute_from (item ∷ items) done profiles =
        let ((trust, criteria), kept) = compute_item item profiles in
        compute_from items
          (record {
            agent_case_trust = insert item.agent_id trust done.agent_case_trust;
            trust_matrix = insert item.agent_id criteria done.trust_matrix;
          })
          kept

    unfoldable pub compute_batch :
        List (TrustInput F) → Profiles F → TrustComputation F × Profiles F
    compute_batch items = compute_from items record { agent_case_trust = []; trust_matrix = [] }

  abbrev pub calibrate_one : F → Option (Criteria F) → F
  calibrate_one score criteria =
      let uncertainty : F = elim criteria [ none ↦ o.lit 0 | some c ↦ c.uncertainty ] in
      let accuracy : F = elim criteria [ none ↦ o.lit 500_000 | some c ↦ c.historical_accuracy ] in
      unit_clamp (
        o.sub score (
          o.add (o.mul (o.lit 220_000) uncertainty)
            (o.mul (o.lit 150_000) (fmax (o.lit 0) (o.sub score accuracy)))))

  abbrev pub calibrate_from : Dict F → Dict (Criteria F) → Dict F → Dict F
  calibrate_from [] trust_matrix done = done
  calibrate_from ((id, score) ∷ scores) trust_matrix done =
      calibrate_from scores trust_matrix
        (insert id (calibrate_one score (lookup id trust_matrix)) done)

  unfoldable pub calibrate : Dict F → Dict (Criteria F) → Dict F
  calibrate raw_scores trust_matrix = calibrate_from raw_scores trust_matrix []

  unfoldable pub complexity_score : F → F → F → F → F → F
  complexity_score novelty_score graph_depth temporal_span conflict_score criticality = unit_clamp (
      o.add
        (o.add
          (o.add (o.add (o.mul (o.lit 240_000) novelty_score) (o.mul (o.lit 180_000) graph_depth))
            (o.mul (o.lit 160_000) temporal_span))
          (o.mul (o.lit 200_000) conflict_score))
        (o.mul (o.lit 220_000) criticality))

  abbrev pub complexity_level : F → String
  complexity_level score =
      if o.lt score (o.lit 350_000)
      then "FAST_PATH"
      else if o.lt score (o.lit 650_000)
      then "GUARDED_PATH"
      else "DEEP_PATH"

  -- The level, and whether a deep analysis is required: on the deep path, or by a trigger.
  unfoldable pub assess : F → F → F → F → F → String × Bool
  assess novelty_score graph_depth temporal_span conflict_score criticality =
      let level =
        complexity_level
          (complexity_score novelty_score graph_depth temporal_span conflict_score criticality) in
      (
        level,
        str_eq level "DEEP_PATH"
            || o.le (o.lit 550_000) conflict_score
            || o.le (o.lit 700_000) novelty_score
            || o.le (o.lit 750_000) criticality
            || o.le (o.lit 700_000) graph_depth,
      )
