-- ===== src/Agents/Plans.antt =====
-- What the remediation agent may do with a task.
use c_e.Common.{
  Bool, true, false, String, List, [], ◌∷◌, Option, none, some, ◌≡◌, refl, ◌⊎◌, inl, inr,
  Bool-cases, all, contains, str_eq, subst, arith,
}
use c_e.Common.Dict.{lookup, get_or}
use c_e.Common.Options.{by_test, >>=-eq-some}
use c_e.Core.Contracts.{ActionClass}
use c_e.Mcp.Specs.{tool_specs}
use c_e.Agents.{AgentResult}
use c_e.Agents.Remediation.{
  McpCall, tool, completion, Replies, RemediationTask, is_directory_entity, prepare_quarantine,
  prepare_irreversible_containment, handle_task, remediate,
}

abbrev reads_or_advises : ActionClass → Bool
reads_or_advises ActionClass.read_only = true
reads_or_advises ActionClass.advisory = true
reads_or_advises _ = false

-- The server's table has the tool as reading or advisory, or it is one of three that the server
-- handles itself.
abbrev pub is_harmless : McpCall → Bool
is_harmless completion = true
is_harmless (tool name) = elim (lookup name tool_specs) [
  | none ↦ contains name ("get_blast_radius" ∷ "forensic_preserve" ∷ "issue_sot" ∷ [])
  | some spec ↦ reads_or_advises spec.action_class
]

abbrev token_types : List String
token_types = "prepare_issue_sot" ∷ "execute_issue_sot" ∷ []

abbrev pub IsPlan : {F : Type 0} → String → AgentResult F → List McpCall → Type 0
IsPlan type result calls =
    (all is_harmless calls ≡ true)
    × ((result.requires_approval ≡ true) ⊎ (contains type token_types ≡ true))
    × ((result.success ≡ true) ⊎ (calls ≡ []))

abbrev MaybePlan : {F : Type 0} → String → Option (AgentResult F × List McpCall) → Type 0
MaybePlan type none = Unit
MaybePlan type (some (result, calls)) = IsPlan type result calls

module _ {F : Type 0} (replies : Replies F) where
  quarantine_calls :
      (task : RemediationTask) (id : String)
      → all is_harmless (prepare_quarantine replies task id).1 ≡ true
  quarantine_calls task id = elim (Bool-cases (is_directory_entity task)) [
    | inl e ↦ rw e refl
    | inr e ↦ rw e refl
  ]

  containment_calls :
      (task : RemediationTask) (id : String)
      → all is_harmless (prepare_irreversible_containment replies task id).1 ≡ true
  containment_calls task id = elim (Bool-cases (is_directory_entity task)) [
    | inl e ↦ rw e refl
    | inr e ↦ rw e refl
  ]

  handle_plans :
      (type : String) (task : RemediationTask) (id : String)
      → MaybePlan type (handle_task replies type task id)
  unfolding handle_task
  handle_plans type task id =
      by_test (MaybePlan type) (str_eq "prepare_issue_sot" type) _ _
        (λ e. (refl, inr (ground arith), inl refl))
        λ _.
          by_test (MaybePlan type) (str_eq "execute_issue_sot" type) _ _
            (λ e. (refl, inr (ground arith), inl refl))
            λ _.
              by_test (MaybePlan type) (str_eq "prepare_quarantine" type) _ _
                (λ e. (quarantine_calls task id, inl refl, inl refl))
                λ _.
                  by_test (MaybePlan type) (str_eq "execute_quarantine" type) _ _
                    (λ e. (refl, inl refl, inr refl))
                    λ _.
                      by_test (MaybePlan type) (str_eq "prepare_irreversible_containment" type) _ _
                        (λ e. (containment_calls task id, inl refl, inl refl))
                        λ _.
                          by_test (MaybePlan type) (str_eq "execute_irreversible_containment" type)
                            _ _ (λ e. (refl, inl refl, inr refl)) (λ _. tt)

  found-IsPlan :
      (type : String) (found : Option (AgentResult F × List McpCall)) (result : AgentResult F)
      (calls : List McpCall)
      → MaybePlan type found
      → found ≡ some (result, calls)
      → IsPlan type result calls
  found-IsPlan type found result calls h e = subst (MaybePlan type) e h

  -- Whatever task the remediation agent handles: it calls only tools that the server's own table has
  -- as reading or advisory, besides the blast radius, the preservation of evidence and the issue of
  -- an observation token; every result asks for approval, but for the two types of task that deal
  -- with such a token; and a result without success made no call at all.
  pub remediate_plans :
      (task : RemediationTask) (result : AgentResult F) (calls : List McpCall)
      → remediate replies task ≡ some (result, calls)
      → (all is_harmless calls ≡ true)
        × ((result.requires_approval ≡ true)
            ⊎ (contains (get_or "type" "" task) ("prepare_issue_sot" ∷ "execute_issue_sot" ∷ [])
                ≡ true))
        × ((result.success ≡ true) ⊎ (calls ≡ []))
  unfolding remediate
  remediate_plans task result calls e =
      let (type, typed, rest) = >>=-eq-some (lookup "type" task) _ e in
      let (task_id, _, rest') = >>=-eq-some (lookup "task_id" task) _ rest in
      let (id, _, made) = >>=-eq-some (lookup "entity_id" task) _ rest' in
      rw (get_or, typed)
        (found-IsPlan type (handle_task replies type task id) result calls
          (handle_plans type task id) made)
