-- ===== src/Agents/Examples.antt =====
-- The agents on concrete inputs.
use c_e.Common.{List, all, contains, ◌⊎◌, ◌↔◌}
use c_e.Agents.Remediation.{
  Replies, RemediationTask, McpCall, tool, completion, prepare_irreversible_containment,
  handle_task, remediate,
}
use c_e.Agents.Plans.{is_harmless, remediate_plans}
use c_e.Common.{true, false, String, [], ◌∷◌, none, some, ◌≡◌, refl, All, str_eq, if◌then◌else◌}
use c_e.Common.Float.{Micro, micro_float, Micro-IsOrdered}
use c_e.Meta.Fingerprint.{field, number, blank}
use c_e.Agents.{AgentResult, error_result}
use c_e.Agents.Export.{SignalTask, build_agent_signal}
use c_e.Agents.Contract.{
  IsAccepted, IsBounded, IsPresent, Micro-IsShrinking, build_agent_signal-IsAccepted,
}
use c_e.Agents.Guard.{BloodHound, check_group_membership_risk}
use c_e.Agents.Verifier.{one}
use c_e.Agents.Directory.{Setting, Task, add_member, guarded_add, add_member_now, add_to_group}
use c_e.Agents.Directory.Reads.{execute}
use c_e.Agents.Directory.Clearance.{Permitted, writes_of}
use c_e.Agents.Directory.Dispatch.{execute-Permitted, unanswered_guard_adds}

-- BloodHound knows one tier-0 asset, to which the helpers have a path.
abbrev hound : BloodHound
hound = record {
  attack_paths = λ from to. if str_eq from "helpers" then some ("p" ∷ []) else some [];
  tier_zero = some ("domain_admins" ∷ []);
}

abbrev silent : BloodHound
silent = record hound { tier_zero = none }

abbrev a_setting : BloodHound → Setting
a_setting guard = record {
  guard = some guard;
  ldap = some record {
    connected = true;
    modify_succeeds = true;
    member_of = λ account wait. some (one "staff");
    delegation = λ account. [];
    deleted_objects = λ name. [];
    object_acl = λ dn. none;
    changes = λ base. [];
  };
  ticket = λ spn. none;
  same = str_eq;
  mentions = λ a b. false;
  char_count = λ s. 8;
}

abbrev an_addition : String → Task
an_addition group = ("type", "add_to_group") ∷ ("account_dn", "alice") ∷ ("group_dn", group) ∷ []

staff_added :
    writes_of (execute {F = Micro} (a_setting hound) [] (an_addition "staff"))
    ≡ add_member "staff" "alice" ∷ []
unfolding execute add_to_group guarded_add check_group_membership_risk add_member_now
staff_added = refl

helpers_blocked : writes_of (execute {F = Micro} (a_setting hound) [] (an_addition "helpers")) ≡ []
unfolding execute add_to_group guarded_add check_group_membership_risk
helpers_blocked = refl

-- Without the tier-0 assets the same addition is made.
helpers_added :
    writes_of (execute {F = Micro} (a_setting silent) [] (an_addition "helpers"))
    ≡ add_member "helpers" "alice" ∷ []
unfolding execute add_to_group guarded_add check_group_membership_risk add_member_now
helpers_added = refl

execute-Permitted_example :
    All
      (Permitted (a_setting hound))
      (writes_of (execute {F = Micro} (a_setting hound) [] (an_addition "staff")))
execute-Permitted_example = execute-Permitted Micro (a_setting hound) [] (an_addition "staff")

unanswered_guard_adds_example :
    guarded_add {F = Micro} (a_setting silent) "alice" "domain_admins"
    ≡ add_member_now (a_setting silent) "alice" "domain_admins"
unanswered_guard_adds_example =
    unanswered_guard_adds Micro (a_setting silent) silent "alice" "domain_admins" refl refl

abbrev a_failure : AgentResult Micro
a_failure = record (error_result "ad" "failed") {
  output = field "risk_signal" (number (micro_float.lit 250_000_000)) blank;
}

abbrev exported_task : SignalTask
exported_task = record {
  task_type = "add_to_group";
  entity_id = some "alice";
  entity_type = some "user";
}

build_agent_signal-IsAccepted_example :
    (IsBounded (build_agent_signal (λ word output. false) exported_task a_failure))
    × ((IsAccepted (build_agent_signal (λ word output. false) exported_task a_failure))
        ↔ ((IsPresent exported_task.entity_id) × (IsPresent exported_task.entity_type)))
build_agent_signal-IsAccepted_example =
    build_agent_signal-IsAccepted Micro-IsOrdered Micro-IsShrinking (λ word output. false)
      exported_task a_failure

abbrev replies : Replies Micro
replies = record { result = λ name. blank; explanation = "contain" }

abbrev a_containment : RemediationTask
a_containment =
    ("type", "prepare_irreversible_containment")
    ∷ ("task_id", "t-1")
    ∷ ("entity_id", "srv-1")
    ∷ ("entity_type", "computer")
    ∷ []

abbrev containment_calls_made : List McpCall
containment_calls_made =
    tool "bh_get_blast_radius"
    ∷ tool "forensic_preserve"
    ∷ tool "bh_get_attack_path"
    ∷ completion
    ∷ tool "decision_analyze_response"
    ∷ []

containment_prepared :
    remediate replies a_containment
    ≡ some
        ((prepare_irreversible_containment replies a_containment "srv-1").0, containment_calls_made)
unfolding remediate handle_task
containment_prepared = refl

remediate_plans_example :
    (all is_harmless containment_calls_made ≡ true)
    × (((prepare_irreversible_containment replies a_containment "srv-1").0.requires_approval ≡ true)
        ⊎ (contains "prepare_irreversible_containment"
              ("prepare_issue_sot" ∷ "execute_issue_sot" ∷ [])
            ≡ true))
    × (((prepare_irreversible_containment replies a_containment "srv-1").0.success ≡ true)
        ⊎ (containment_calls_made ≡ []))
remediate_plans_example =
    remediate_plans replies a_containment
      (prepare_irreversible_containment replies a_containment "srv-1").0 containment_calls_made
      containment_prepared
