-- ===== src/Meta/Sample.antt =====
-- Concrete cases, messages and builtins.
use c_e.Common.{ℕ, false, String, List, [], ◌∷◌, none, some}
use c_e.Common.Int.{pos}
use c_e.Common.Float.{Micro, micro_float}
use c_e.Meta.{MemoryCase, Match, Limits}
use c_e.Meta.Fingerprint.{Json, number, field, blank}
use c_e.Meta.Linker.{Builtins, Settings}
use c_e.Meta.Messages.{AgentMessage}
use c_e.Meta.Decision.{EvaluateRequest, World}
use c_e.Common.{if◌then◌else◌}

abbrev pub limits : Limits
limits = record { default_ttl_seconds = 3600; max_items = 2000 }

abbrev pub alike : String → String → Micro
alike a b = micro_float.lit 970_000

abbrev pub as_given : List (Match Micro) → List (Match Micro)
as_given ms = ms

abbrev pub a_case : String → MemoryCase Micro
a_case fp = record {
  fingerprint = fp;
  fingerprint_material = "m";
  scores = ("aggregate_risk", micro_float.lit 400_000) ∷ [];
  agents_used = "a-1" ∷ "a-2" ∷ [];
  model_version = "v";
  policy_version = "p";
  reusability_score = micro_float.lit 900_000;
  created_at = micro_float.lit 0;
  ttl_seconds = 0;
  invalidated = false;
  invalidation_reason = "";
}

abbrev pub at : ℕ → Micro
at n = micro_float.of_int (pos n)

abbrev pub total : List Micro → Micro
total [] = micro_float.lit 0
total (x ∷ xs) = micro_float.add x (total xs)

abbrev pub absolute : Micro → Micro
absolute x =
    if micro_float.lt x (micro_float.lit 0) then micro_float.sub (micro_float.lit 0) x else x

abbrev pub builtins : Builtins Micro
builtins = record {
  sum = total;
  abs = absolute;
  parse = λ s. none;
  from_int = λ n. some (micro_float.of_int n);
  sorted_fields = λ fs. fs;
  dumps = λ j. some "m";
  sha256 = λ s. "f-9";
  ratio = alike;
  sorted_matches = as_given;
}

abbrev pub settings : Settings Micro
settings = record {
  limits = limits;
  fingerprint_version = "v1";
  timeout_ms = 25;
  min_trust_threshold = micro_float.lit 450_000;
}

abbrev pub message : String → Json Micro → AgentMessage Micro
message sender risk = record {
  sender = some sender;
  specialty = none;
  risk_signal = some risk;
  score = none;
  runtime_trust = some (number (micro_float.lit 900_000));
  uncertainty = some (number (micro_float.lit 100_000));
  data_quality = some (number (micro_float.lit 900_000));
  reasoning_quality = some (number (micro_float.lit 900_000));
}

abbrev pub a_request : List (AgentMessage Micro) → EvaluateRequest Micro
a_request messages = record {
  event = field "novelty_score" (number (micro_float.lit 800_000)) blank;
  agent_messages = messages;
  model_scores = [];
  identity_context = blank;
  graph_context = blank;
  policy_version = "p";
  model_signature = "v";
}

abbrev pub a_world : World Micro
a_world = record { profiles = []; cases = a_case "f-1" ∷ [] }

abbrev pub two_agents : EvaluateRequest Micro
two_agents = a_request (
    message "hunter" (number (micro_float.lit 900_000))
    ∷ message "watcher" (number (micro_float.lit 200_000))
    ∷ [])
