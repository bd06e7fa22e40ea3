-- ===== src/Mcp/Models.antt =====
-- services/cortex-mcp-server/cortex_mcp_server/router.py: the tables of the model router.
use c_e.Common.{ℕ, String, List, [], ◌∷◌, Option, none, some, if◌then◌else◌, str_eq}

pub data ModelId : Type 0 where
  phi3_mini mistral_7b llama3_8b codellama_13b claude openai_gpt5 openai_gpt45 : ModelId

-- The place of a model in the enumeration, by which models are compared.
abbrev pub model_index : ModelId → ℕ
model_index ModelId.phi3_mini = 0
model_index ModelId.mistral_7b = 1
model_index ModelId.llama3_8b = 2
model_index ModelId.codellama_13b = 3
model_index ModelId.claude = 4
model_index ModelId.openai_gpt5 = 5
model_index ModelId.openai_gpt45 = 6

abbrev pub model_value : ModelId → String
model_value ModelId.phi3_mini = "phi3-mini"
model_value ModelId.mistral_7b = "mistral-7b"
model_value ModelId.llama3_8b = "llama3-8b"
model_value ModelId.codellama_13b = "codellama-13b"
model_value ModelId.claude = "claude"
model_value ModelId.openai_gpt5 = "openai-gpt5"
model_value ModelId.openai_gpt45 = "openai-gpt45"

pub data TaskType : Type 0 where
  classify_intent parse_log extract_entities summarize_short validate_schema : TaskType
  classify_threat detect_anomaly analyze_attack score_risk correlate_events : TaskType
  investigate explain compare_policies answer_soc draft_plan : TaskType
  analyze_graph generate_rego generate_rego_test refactor_rego generate_script : TaskType
  explain_code complex_reasoning high_risk_decision human_explanation : TaskType

abbrev pub task_index : TaskType → ℕ
task_index TaskType.classify_intent = 0
task_index TaskType.parse_log = 1
task_index TaskType.extract_entities = 2
task_index TaskType.summarize_short = 3
task_index TaskType.validate_schema = 4
task_index TaskType.classify_threat = 5
task_index TaskType.detect_anomaly = 6
task_index TaskType.analyze_attack = 7
task_index TaskType.score_risk = 8
task_index TaskType.correlate_events = 9
task_index TaskType.investigate = 10
task_index TaskType.explain = 11
task_index TaskType.compare_policies = 12
task_index TaskType.answer_soc = 13
task_index TaskType.draft_plan = 14
task_index TaskType.analyze_graph = 15
task_index TaskType.generate_rego = 16
task_index TaskType.generate_rego_test = 17
task_index TaskType.refactor_rego = 18
task_index TaskType.generate_script = 19
task_index TaskType.explain_code = 20
task_index TaskType.complex_reasoning = 21
task_index TaskType.high_risk_decision = 22
task_index TaskType.human_explanation = 23

abbrev pub task_value : TaskType → String
task_value TaskType.classify_intent = "classify_intent"
task_value TaskType.parse_log = "parse_log"
task_value TaskType.extract_entities = "extract_entities"
task_value TaskType.summarize_short = "summarize_short"
task_value TaskType.validate_schema = "validate_schema"
task_value TaskType.classify_threat = "classify_threat"
task_value TaskType.detect_anomaly = "detect_anomaly"
task_value TaskType.analyze_attack = "analyze_attack"
task_value TaskType.score_risk = "score_risk"
task_value TaskType.correlate_events = "correlate_events"
task_value TaskType.investigate = "investigate"
task_value TaskType.explain = "explain"
task_value TaskType.compare_policies = "compare_policies"
task_value TaskType.answer_soc = "answer_soc"
task_value TaskType.draft_plan = "draft_plan"
task_value TaskType.analyze_graph = "analyze_graph"
task_value TaskType.generate_rego = "generate_rego"
task_value TaskType.generate_rego_test = "generate_rego_test"
task_value TaskType.refactor_rego = "refactor_rego"
task_value TaskType.generate_script = "generate_script"
task_value TaskType.explain_code = "explain_code"
task_value TaskType.complex_reasoning = "complex_reasoning"
task_value TaskType.high_risk_decision = "high_risk_decision"
task_value TaskType.human_explanation = "human_explanation"

-- The members of `TaskType` in order.
abbrev task_types : List TaskType
task_types =
    TaskType.classify_intent ∷ TaskType.parse_log ∷ TaskType.extract_entities
    ∷ TaskType.summarize_short ∷ TaskType.validate_schema ∷ TaskType.classify_threat
    ∷ TaskType.detect_anomaly ∷ TaskType.analyze_attack ∷ TaskType.score_risk
    ∷ TaskType.correlate_events ∷ TaskType.investigate ∷ TaskType.explain
    ∷ TaskType.compare_policies ∷ TaskType.answer_soc ∷ TaskType.draft_plan ∷ TaskType.analyze_graph
    ∷ TaskType.generate_rego ∷ TaskType.generate_rego_test ∷ TaskType.refactor_rego
    ∷ TaskType.generate_script ∷ TaskType.explain_code ∷ TaskType.complex_reasoning
    ∷ TaskType.high_risk_decision ∷ TaskType.human_explanation ∷ []

abbrev find_task : List TaskType → String → Option TaskType
find_task [] text = none
find_task (t ∷ ts) text = if str_eq (task_value t) text then some t else find_task ts text

-- `TaskType(text)`; `none` is the `ValueError`.
unfoldable pub task_of_value : String → Option TaskType
task_of_value text = find_task task_types text

-- `TASK_TO_MODEL`: the primary and the fallback model of each task type.
unfoldable pub task_to_model : TaskType → ModelId × ModelId
task_to_model TaskType.classify_intent = (ModelId.phi3_mini, ModelId.mistral_7b)
task_to_model TaskType.parse_log = (ModelId.phi3_mini, ModelId.mistral_7b)
task_to_model TaskType.extract_entities = (ModelId.phi3_mini, ModelId.llama3_8b)
task_to_model TaskType.summarize_short = (ModelId.phi3_mini, ModelId.llama3_8b)
task_to_model TaskType.validate_schema = (ModelId.phi3_mini, ModelId.mistral_7b)
task_to_model TaskType.classify_threat = (ModelId.mistral_7b, ModelId.llama3_8b)
task_to_model TaskType.detect_anomaly = (ModelId.mistral_7b, ModelId.llama3_8b)
task_to_model TaskType.analyze_attack = (ModelId.mistral_7b, ModelId.llama3_8b)
task_to_model TaskType.score_risk = (ModelId.mistral_7b, ModelId.llama3_8b)
task_to_model TaskType.correlate_events = (ModelId.mistral_7b, ModelId.llama3_8b)
task_to_model TaskType.investigate = (ModelId.llama3_8b, ModelId.claude)
task_to_model TaskType.explain = (ModelId.llama3_8b, ModelId.claude)
task_to_model TaskType.compare_policies = (ModelId.llama3_8b, ModelId.claude)
task_to_model TaskType.answer_soc = (ModelId.llama3_8b, ModelId.claude)
task_to_model TaskType.draft_plan = (ModelId.llama3_8b, ModelId.claude)
task_to_model TaskType.analyze_graph = (ModelId.llama3_8b, ModelId.claude)
task_to_model TaskType.generate_rego = (ModelId.codellama_13b, ModelId.claude)
task_to_model TaskType.generate_rego_test = (ModelId.codellama_13b, ModelId.claude)
task_to_model TaskType.refactor_rego = (ModelId.codellama_13b, ModelId.claude)
task_to_model TaskType.generate_script = (ModelId.codellama_13b, ModelId.claude)
task_to_model TaskType.explain_code = (ModelId.codellama_13b, ModelId.llama3_8b)
task_to_model TaskType.complex_reasoning = (ModelId.openai_gpt5, ModelId.claude)
task_to_model TaskType.high_risk_decision = (ModelId.claude, ModelId.openai_gpt5)
task_to_model TaskType.human_explanation = (ModelId.openai_gpt5, ModelId.claude)

-- `MODEL_TIMEOUTS`, in milliseconds.
unfoldable pub model_timeout : ModelId → ℕ
model_timeout ModelId.phi3_mini = 500
model_timeout ModelId.mistral_7b = 3_000
model_timeout ModelId.llama3_8b = 8_000
model_timeout ModelId.codellama_13b = 20_000
model_timeout ModelId.claude = 30_000
model_timeout ModelId.openai_gpt5 = 30_000
model_timeout ModelId.openai_gpt45 = 30_000
