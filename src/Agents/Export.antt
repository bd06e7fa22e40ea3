-- ===== src/Agents/Export.antt =====
-- services/cortex-agents/cortex_agents/signal_export.py: the signal that a result becomes. The
-- search of the output's text for a word is an argument. The times, the ids of the task and the
-- event, the explanation and the output, which are copied from the result, are left out, and so is
-- an integer in the output beyond the range of floats, at which `float` raises.
use c_e.Common.{Bool, true, false, ◌||◌, String, Option, none, some, if◌then◌else◌, str_eq}
use c_e.Common.Float.{Float, fmax, clamp}
use c_e.Meta.Fingerprint.{
  Json, null, flag, integer, number, text, items, object, Fields, blank, get_field,
}
use c_e.Meta.Messages.{truthy}
use c_e.Agents.{AgentResult}

-- What the export reads of a task: `task.get(...)` gives None for a missing key.
pub record SignalTask : Type 0 where
  pub task_type : String
  pub entity_id : Option String
  pub entity_type : Option String

-- The contract's fields that the agent fills in.
pub record ExportedSignal (F : Type 0) : Type 0 where
  pub entity_id : Option String
  pub entity_type : Option String
  pub agent_id : String
  pub specialty : String
  pub risk_signal : F
  pub priority : F
  pub runtime_trust : F
  pub uncertainty : F
  pub data_quality : F
  pub reasoning_quality : F
  pub requires_approval : Bool
  pub success : Bool

abbrev is_some : {A : Type 0} → Option A → Bool
is_some none = false
is_some (some _) = true

-- `a` if it is there, and `b` otherwise
abbrev pub or_other : {A : Type 0} → Option A → Option A → Option A
or_other none b = b
or_other (some a) b = some a

abbrev is_blank : {F : Type 0} → Fields F → Bool
is_blank blank = true
is_blank (Fields.field _ _ _) = false

module _ {F : Type 0} ⦃o : Float F⦄ where
  abbrev pub clamped : F → F
  clamped = clamp (o.lit 0) (o.lit 1_000_000)

  abbrev normalized : F → F
  normalized x = clamped (
      if o.lt (o.lit 1_000_000) x
      then (if o.le x (o.lit 100_000_000) then o.div x (o.lit 100_000_000) else o.lit 1_000_000)
      else x)

  -- `_normalize_score`: a Boolean is no score
  abbrev pub normalize_score : Option (Json F) → Option F
  normalize_score none = none
  normalize_score (some (number x)) = some (normalized x)
  normalize_score (some (integer n)) = some (normalized (o.of_int n))
  normalize_score (some null) = none
  normalize_score (some (flag x)) = none
  normalize_score (some (text s)) = none
  normalize_score (some (items vs)) = none
  normalize_score (some (object fs)) = none

  abbrev level_signal : F → F
  level_signal x = clamped (if o.le x (o.lit 5_000_000) then o.div x (o.lit 5_000_000) else x)

  -- A risk level, where a Boolean counts as 0 or 1.
  abbrev pub level_of : Option (Json F) → Option F
  level_of none = none
  level_of (some (number x)) = some (level_signal x)
  level_of (some (integer n)) = some (level_signal (o.of_int n))
  level_of (some (flag x)) = some (level_signal (if x then o.lit 1_000_000 else o.lit 0))
  level_of (some null) = none
  level_of (some (text s)) = none
  level_of (some (items vs)) = none
  level_of (some (object fs)) = none

  -- `output.get(outer, {}).get(key)` if the outer value is an object
  abbrev pub nested : String → String → Fields F → Option (Json F)
  nested outer key output = elim (get_field outer output) [
    | none ↦ none
    | some value ↦ elim value [ object fields ↦ get_field key fields | _ ↦ none ]
  ]

  -- `bool(output.get(key))`
  abbrev pub is_set : Option (Json F) → Bool
  is_set none = false
  is_set (some value) = truthy value

  abbrev pub baseline_of : AgentResult F → F
  baseline_of result =
      let first = o.lit 350_000 in
      let second = if result.requires_approval then fmax first (o.lit 700_000) else first in
      let third =
        if is_set (get_field "blocked" result.output)
        then fmax second (o.lit 820_000)
        else second in
      if result.success then third else fmax (o.lit 200_000) (o.sub third (o.lit 100_000))

  unfoldable pub extract_risk_signal : AgentResult F → F
  extract_risk_signal result =
      let output = result.output in
      elim (or_other (normalize_score (get_field "risk_signal" output)) (
        or_other (level_of (get_field "risk_level" output)) (
          or_other (level_of (nested "decision" "risk_level" output)) (
            or_other (normalize_score (get_field "score" output))
              (normalize_score (nested "blast_radius" "score" output)))))) [
                | none ↦ baseline_of result
                | some x ↦ x
              ]

  module _ (mentions : String → Fields F → Bool) where
    abbrev extract_specialty : String → String → Fields F → String
    extract_specialty agent_id task_type output =
        if str_eq agent_id "ad"
        then (if mentions "path" output || mentions "blast" output
            then "identity_graph"
            else "directory_control")
        else if str_eq agent_id "decision"
        then "response_decision"
        else if str_eq agent_id "remediation"
        then "containment_planning"
        else if str_eq task_type ""
        then "general"
        else task_type

    unfoldable pub build_agent_signal : SignalTask → AgentResult F → ExportedSignal F
    build_agent_signal task result =
        let risk_signal = extract_risk_signal result in
        let approval_weight = if result.requires_approval then o.lit 200_000 else o.lit 0 in
        let success_weight =
          if result.success then o.lit 100_000 else o.sub (o.lit 0) (o.lit 100_000) in
        let uncertainty =
          clamped (if result.requires_approval then o.lit 550_000 else o.lit 350_000) in
        record {
          entity_id = task.entity_id;
          entity_type = task.entity_type;
          agent_id = result.agent_id;
          specialty = extract_specialty result.agent_id task.task_type result.output;
          risk_signal = risk_signal;
          priority = clamped (o.add (o.add risk_signal approval_weight) success_weight);
          runtime_trust = clamped (if result.success then o.lit 750_000 else o.lit 400_000);
          uncertainty =
              if is_set (nested "decision" "advisory_only" result.output)
              then fmax uncertainty (o.lit 450_000)
              else uncertainty;
          data_quality = clamped (if is_blank result.output then o.lit 450_000 else o.lit 800_000);
          reasoning_quality = clamped (if result.reasoned then o.lit 750_000 else o.lit 300_000);
          requires_approval = result.requires_approval;
          success = result.success;
        }
