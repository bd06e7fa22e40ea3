-- ===== src/Mcp/Tools/Dispatch.antt =====
-- `execute_with_fallback` of executor.py: a model call, and a second one to the fallback.
use c_e.Common.{
  ℕ, Bool, true, false, not, String, List, [], ◌∷◌, Option, none, some, ◌≡◌, ◌↔◌, ◌⊎◌, inl, inr,
  refl, sym, ap, ◌∙◌, arith, if◌then◌else◌, ◌==◌, ==_iff, Bool-cases, Option-cases,
}
use c_e.Mcp.Models.{ModelId, model_index}
use c_e.Mcp.Router.{RoutingDecision, same_model}

pub record Answer : Type 0 where
  pub content : String
  pub model_used : ModelId
  pub was_fallback : Bool
  pub agent_id : String

abbrev answer : ModelId → Bool → String → String → Answer
answer model fallback agent text = record {
  content = text;
  model_used = model;
  was_fallback = fallback;
  agent_id = agent;
}

abbrev answer_of : ModelId → Bool → String → Option String → Option Answer
answer_of model fallback agent none = none
answer_of model fallback agent (some text) = some (answer model fallback agent text)

-- `call` is what each model answers, `none` when the call raises. The result is the answer, or
-- `none` when the exception passes on, with the models called in order.
execute_with_fallback :
    (ModelId → Option String) → RoutingDecision → String → Option Answer × List ModelId
execute_with_fallback call decision agent =
    let primary : ModelId = decision.primary_model in
    let fallback : ModelId = decision.fallback_model in
    elim (call primary) [
      | some text ↦ (answer_of primary false agent (some text), primary ∷ [])
      | none ↦
          if not (same_model fallback primary)
          then (answer_of fallback true agent (call fallback), primary ∷ fallback ∷ [])
          else (none, primary ∷ [])
    ]

of_index : ℕ → ModelId
of_index n =
    if n == 0
    then ModelId.phi3_mini
    else if n == 1
    then ModelId.mistral_7b
    else if n == 2
    then ModelId.llama3_8b
    else if n == 3
    then ModelId.codellama_13b
    else if n == 4
    then ModelId.claude
    else if n == 5
    then ModelId.openai_gpt5
    else ModelId.openai_gpt45

of_index-model_index : (m : ModelId) → of_index (model_index m) ≡ m
unfolding of_index
of_index-model_index ModelId.phi3_mini = refl
of_index-model_index ModelId.mistral_7b = refl
of_index-model_index ModelId.llama3_8b = refl
of_index-model_index ModelId.codellama_13b = refl
of_index-model_index ModelId.claude = refl
of_index-model_index ModelId.openai_gpt5 = refl
of_index-model_index ModelId.openai_gpt45 = refl

same_model-eq : (a b : ModelId) → same_model a b ≡ true → a ≡ b
same_model-eq a b h =
    sym (of_index-model_index a)
    ∙ ap of_index ((==_iff (model_index a) (model_index b)).0 h)
    ∙ of_index-model_index b

module _ (call : ModelId → Option String) (decision : RoutingDecision) (agent : String) where
  -- The call returns an answer exactly when the primary or the fallback model answers; otherwise
  -- the exception passes on.
  answered_iff : ((a : Answer) × ((execute_with_fallback call decision agent).0 ≡ some a)) ↔ (
      ((t : String) × (call decision.primary_model ≡ some t))
      ⊎ ((t : String) × (call decision.fallback_model ≡ some t)))
  unfolding execute_with_fallback
  answered_iff = elim (Option-cases (call decision.primary_model)) [
    | inr (t, e) ↦
        (λ _. inl (t, e), λ _. (answer decision.primary_model false agent t, ground arith))
    | inl e ↦ elim (Bool-cases (same_model decision.fallback_model decision.primary_model)) [
      | inl same ↦ ground (arith, same_model-eq decision.fallback_model decision.primary_model same)
      | inr other ↦ elim (Option-cases (call decision.fallback_model)) [
        | inl f ↦ ground arith
        | inr (t, f) ↦
            (λ _. inr (t, f), λ _. (answer decision.fallback_model true agent t, ground arith))
      ]
    ]
  ]

  -- An answer carries the text that the model it names returned and the agent's id, and is marked
  -- as a fallback exactly when the primary model failed.
  answer_source :
      (a : Answer)
      → (execute_with_fallback call decision agent).0 ≡ some a
      → (call a.model_used ≡ some a.content)
        × ((a.was_fallback ≡ true) ↔ (call decision.primary_model ≡ none))
        × (a.agent_id ≡ agent)
  unfolding execute_with_fallback
  answer_source a h = ground (arith)
