-- ===== src/Meta/Messages.antt =====
-- What `MetaDecisionAgent.evaluate` of cortex/meta_decision/meta_decision_agent.py reads of an event
-- and of the agents' messages: values of any JSON type, where a missing sender and a value that is
-- no number raise.
use c_e.Common.{
  ℕ, Bool, true, false, not, String, List, [], ◌∷◌, Option, none, some, if◌then◌else◌, str_eq, leb,
  length, map,
}
use c_e.Common.Int.{pos, negsuc}
use c_e.Common.Dict.{Dict}
use c_e.Common.Float.{Float, is_zero, spread_of}
use c_e.Common.Options.{◌>>=◌}
use c_e.Meta.{unit_clamp}
use c_e.Meta.Trust.{TrustInput}
use c_e.Meta.Fingerprint.{
  Json, null, flag, integer, number, text, items, object, Items, Fields, blank, get_field,
}
use c_e.Meta.Linker.{Builtins}

pub record AgentMessage (F : Type 0) : Type 0 where
  pub sender : Option String
  pub specialty : Option String
  pub risk_signal : Option (Json F)
  pub score : Option (Json F)
  pub runtime_trust : Option (Json F)
  pub uncertainty : Option (Json F)
  pub data_quality : Option (Json F)
  pub reasoning_quality : Option (Json F)

-- A message that was read: its sender, its signal, and what the trust engine is given.
pub record Reading (F : Type 0) : Type 0 where
  pub sender : String
  pub signal : F
  pub input : TrustInput F

-- What is read of the event before the memory is asked.
pub record EventFacts (F : Type 0) : Type 0 where
  pub criticality : F
  pub novelty_score : F
  pub flags : Dict Bool

module _ {F : Type 0} ⦃o : Float F⦄ where
  -- `bool(value)`
  abbrev pub truthy : Json F → Bool
  truthy null = false
  truthy (flag x) = x
  truthy (integer (pos ℕ.zero)) = false
  truthy (integer (pos (ℕ.suc n))) = true
  truthy (integer (negsuc n)) = true
  truthy (number x) = not (is_zero x)
  truthy (text s) = not (str_eq s "")
  truthy (items Items.end) = false
  truthy (items (Items.item v vs)) = true
  truthy (object Fields.blank) = false
  truthy (object (Fields.field k v fs)) = true

  module _ (b : Builtins F) where
    -- `float(value)`
    unfoldable pub float_of : Json F → Option F
    float_of (number x) = some x
    float_of (integer n) = b.from_int n
    float_of (flag x) = some (if x then o.lit 1_000_000 else o.lit 0)
    float_of (text s) = b.parse s
    float_of null = none
    float_of (items vs) = none
    float_of (object fs) = none

    -- `float(message.get(key, default))`
    abbrev pub read : Option (Json F) → F → Option F
    read none default = some default
    read (some value) default = float_of value

    unfoldable pub extract_numeric_signal : AgentMessage F → Option F
    extract_numeric_signal message =
        elim message.risk_signal [ none ↦ read message.score (o.lit 0) | some v ↦ float_of v ]
        >>= λ x. some (unit_clamp x)

    unfoldable pub read_message : AgentMessage F → Option (Reading F)
    read_message message = do
      sender ← message.sender
      runtime ← read message.runtime_trust (o.lit 500_000)
      signal ← extract_numeric_signal message
      uncertainty ← read message.uncertainty (o.sub (o.lit 1_000_000) signal)
      data_quality ← read message.data_quality (o.lit 500_000)
      reasoning_quality ← read message.reasoning_quality (o.lit 500_000)
      some record {
        sender = sender;
        signal = signal;
        input = record {
          agent_id = sender;
          specialty = message.specialty;
          runtime_trust = some runtime;
          uncertainty = some uncertainty;
          data_quality = some data_quality;
          reasoning_quality = some reasoning_quality;
        };
      }

    -- `sum(signals) / max(1, len(signals))`
    abbrev pub mean_of : List F → F
    mean_of [] = o.div (b.sum []) (o.of_int (pos 1))
    mean_of (x ∷ xs) = o.div (b.sum (x ∷ xs)) (o.of_int (pos (length (x ∷ xs))))

    unfoldable pub compute_conflict : List F → F
    compute_conflict signals =
        if leb 2 (length signals)
        then unit_clamp (
            o.add (o.mul (o.lit 600_000) (spread_of signals)) (
              o.mul (o.lit 400_000)
                (mean_of (map (λ signal. b.abs (o.sub signal (mean_of signals))) signals))))
        else o.lit 0

    -- `event.get("metadata", {})`, of which a key is asked.
    abbrev metadata_of : Fields F → Option (Fields F)
    metadata_of event = elim (get_field "metadata" event) [
      | none ↦ some blank
      | some value ↦ elim value [ object fields ↦ some fields | _ ↦ none ]
    ]

    abbrev flag_in : String → Fields F → Bool
    flag_in name metadata = elim (get_field name metadata) [
      | none ↦ false
      | some value ↦ truthy value
    ]

    unfoldable pub event_facts : Fields F → Option (EventFacts F)
    event_facts event = do
      asset ← read (get_field "asset_criticality" event) (o.lit 0)
      blast ← read (get_field "blast_radius" event) (o.lit 0)
      metadata ← metadata_of event
      novelty ← read (get_field "novelty_score" event) (o.lit 0)
      let crown_jewel = flag_in "crown_jewel" metadata
      some record {
        criticality = unit_clamp (
            o.add (o.add (o.mul (o.lit 550_000) asset) (o.mul (o.lit 300_000) blast))
              (o.mul (o.lit 150_000) (if crown_jewel then o.lit 1_000_000 else o.lit 0)));
        novelty_score = novelty;
        flags =
            ("zero_day_possible", flag_in "zero_day_possible" metadata)
            ∷ ("admin_compromise", flag_in "admin_compromise" metadata)
            ∷ ("insider", flag_in "insider" metadata)
            ∷ ("crown_jewel", crown_jewel)
            ∷ [];
      }
