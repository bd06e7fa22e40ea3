-- ===== src/Mcp/Router.antt =====
-- `SmartModelRouter` of router.py: the classification of a task and the choice of a model. The
-- local classifier model is outside: `phi3` is its reply after `strip`, `lower` and `replace`, and
-- `none` where the call raises. `joined` is the task and the context values in lower case. The
-- confidence is carried as the text that the reason prints.
use Prim.Native.String
use text.Mathlib.Text.{find?}
use c_e.Common.{
  ℕ, Bool, true, false, not, ◌&&◌, ◌||◌, String, List, [], ◌∷◌, Option, none, some, ◌==◌, any,
  if◌then◌else◌, str_eq,
}
use c_e.Mcp.Models.{
  ModelId, model_index, TaskType, task_index, task_value, task_of_value, task_to_model,
  model_timeout,
}
use c_e.Mcp.Keywords.{fast_path_keywords}
use c_e.Mcp.Breaker.{CircuitBreaker, is_open}
pub mod Choice
pub mod Classes

-- `routing_confidence_threshold` is not read by any code, and left out.
pub record RouterConfig : Type 0 where
  pub forced_models : List (TaskType × ModelId)
  pub disabled_models : List ModelId
  pub gpu_cloud_enabled : Bool

pub record RoutingDecision : Type 0 where
  pub task_type : TaskType
  pub primary_model : ModelId
  pub fallback_model : ModelId
  pub timeout_ms : ℕ
  pub hardware : String
  pub reason : String
  pub routing_source : String

pub record Classified : Type 0 where
  pub task_type : TaskType
  pub confidence : String
  pub source : String

-- `needle in text`
abbrev mentions : String → String → Bool
mentions text needle = elim (find? text needle) [ none ↦ false | some _ ↦ true ]

abbrev mentions_any : String → List String → Bool
mentions_any text = any (mentions text)

heuristic_classify : String → TaskType
heuristic_classify task_lower =
    if mentions_any task_lower ("rego" ∷ "policy" ∷ "script" ∷ "code" ∷ [])
    then TaskType.generate_rego
    else if mentions_any task_lower ("threat" ∷ "attack" ∷ "anomaly" ∷ "risk" ∷ [])
    then TaskType.classify_threat
    else if mentions_any task_lower ("investigate" ∷ "incident" ∷ "explain" ∷ [])
    then TaskType.investigate
    else if mentions_any task_lower ("parse" ∷ "extract" ∷ "log" ∷ "summarize" ∷ [])
    then TaskType.parse_log
    else TaskType.complex_reasoning

-- The loop over the keywords: the task type of the first keyword that the text mentions.
pub fast_path : List (String × String) → String → Option String
fast_path [] joined = none
fast_path ((keyword, task_type) ∷ rest) joined =
    if mentions joined keyword then some task_type else fast_path rest joined

-- The reply of the classifier, if it names a task type.
abbrev accepted_reply : Option String → Option TaskType
accepted_reply none = none
accepted_reply (some raw) = task_of_value raw

-- `none` is the `ValueError` of a keyword whose value is no task type.
classify_task : (joined : String) (phi3 : Option String) → Option Classified
classify_task joined phi3 = elim (fast_path fast_path_keywords joined) [
  | some value ↦ elim (task_of_value value) [
    | none ↦ none
    | some t ↦ some (record { task_type = t; confidence = "1.00"; source = "fast_path" })
  ]
  | none ↦ elim (accepted_reply phi3) [
    | some t ↦ some (record { task_type = t; confidence = "0.90"; source = "phi3" })
    | none ↦ some (record {
      task_type = heuristic_classify joined;
      confidence = "0.50";
      source = "heuristic";
    })
  ]
]

abbrev pub same_model : ModelId → ModelId → Bool
same_model a b = model_index a == model_index b

abbrev pub is_in : ModelId → List ModelId → Bool
is_in m = any (same_model m)

-- `{LLAMA3_8B, CODELLAMA_13B}`
abbrev pub is_gpu : ModelId → Bool
is_gpu ModelId.llama3_8b = true
is_gpu ModelId.codellama_13b = true
is_gpu _ = false

abbrev pub forced : TaskType → List (TaskType × ModelId) → Option ModelId
forced t [] = none
forced t ((u, m) ∷ rest) = if task_index u == task_index t then some m else forced t rest

abbrev pub Breakers : Type 0
Breakers = ModelId → CircuitBreaker

-- The primary model after `forced_models`.
abbrev preferred : RouterConfig → TaskType → ModelId
preferred c t = elim (forced t c.forced_models) [ some m ↦ m | none ↦ (task_to_model t).0 ]

-- The model after the check of the GPU cloud.
without_gpu : RouterConfig → ModelId → ModelId → ModelId
without_gpu c primary fallback =
    if not c.gpu_cloud_enabled && is_gpu primary
    then (if not (is_gpu fallback) then fallback else ModelId.claude)
    else primary

-- The model after the check of disabled models and open circuits.
usable_or_fallback : RouterConfig → Breakers → ModelId → ModelId → ModelId
usable_or_fallback c breakers primary fallback =
    if is_in primary c.disabled_models || is_open (breakers primary)
    then (if not (is_in fallback c.disabled_models) then fallback else ModelId.claude)
    else primary

pub choose : RouterConfig → Breakers → TaskType → ModelId
unfolding without_gpu usable_or_fallback
choose c breakers t =
    let fallback : ModelId = (task_to_model t).1 in
    usable_or_fallback c breakers (without_gpu c (preferred c t) fallback) fallback

abbrev is_claude : ModelId → Bool
is_claude ModelId.claude = true
is_claude _ = false

hardware_of : ModelId → String
hardware_of primary =
    if is_claude primary then "api" else if is_gpu primary then "gpu_cloud" else "cpu_local"

pub route :
    RouterConfig → Breakers → (joined : String) (phi3 : Option String) → Option RoutingDecision
unfolding classify_task choose hardware_of
route c breakers joined phi3 = elim (classify_task joined phi3) [
  | none ↦ none
  | some k ↦
      let primary : ModelId = choose c breakers k.task_type in
      some (record {
        task_type = k.task_type;
        primary_model = primary;
        fallback_model = (task_to_model k.task_type).1;
        timeout_ms = model_timeout primary;
        hardware = hardware_of primary;
        reason = String.◌++◌ "task=" (
            String.◌++◌ (task_value k.task_type) (
              String.◌++◌ ",hw="
                (String.◌++◌ (hardware_of primary) (String.◌++◌ ",confidence=" k.confidence))));
        routing_source = k.source;
      })
]
