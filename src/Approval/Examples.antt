-- ===== src/Approval/Examples.antt =====
-- Requests and decisions on the approval service.
use c_e.Common.{
  ℕ, true, false, String, [], ◌∷◌, List, some, none, ◌≡◌, ◌≢◌, refl, arith, leb→le, str_eq_iff,
}
use c_e.Common.Int.{pos, ◌*ℤ◌, ◌+ℤ◌}
use c_e.Common.Dict.{lookup}
use c_e.Common.Float.{Micro, micro_float}
use c_e.Approval.Data.{
  ApprovalStatus, ApprovalRequest, ApprovalDecision, ApprovalRecord, ApprovalError, Caller, Clock,
  Store, err,
}
use c_e.Approval.Handlers.{
  new_record, rejected_once, maybe_expire, request_approval, approve_request, reject_request,
}
use c_e.Approval.Records.{IsWellFormed}
use c_e.Approval.Runs.{Call, create, approve, reject, list, after, after_all, reachable_sound}
use c_e.Approval.Final.{resolved_is_final}
use c_e.Approval.Quorum.{late_decision_refused, one_caller_approves_twice}

abbrev seconds : ℕ → Micro
seconds n = micro_float.of_int (pos n)

abbrev at_time : ℕ → Clock Micro
at_time n = record { tested = seconds n; expiring = seconds n; deciding = seconds n }

abbrev operator : Caller
operator = record { expected = "secret"; header = "secret" }

abbrev no_comment : ApprovalDecision
no_comment = record { comment = none; reason = none }

abbrev request : ApprovalRequest
request = record {
  plan_id = "plan-1";
  requestor_id = "soc";
  actions =
      record { task_id = "t-1"; intent = "isolate"; risk_level = 5; dry_run_required = true } ∷ [];
  reasoning = "credential dump";
  risk_level = 5;
  correlation_id = "";
  execution_mode = "prepare";
  capability_maturity = "beta";
  degraded_mode = false;
  risk_envelope = [];
}

abbrev created : Call Micro
created = create operator request "r-1" (at_time 0)

abbrev pending_record : ApprovalRecord Micro
unfolding new_record
pending_record = new_record request "r-1" (seconds 0)

abbrev rejected_record : ApprovalRecord Micro
unfolding rejected_once
rejected_record = rejected_once no_comment (seconds 60) pending_record

abbrev rejection : List (Call Micro)
rejection = created ∷ reject operator "r-1" no_comment (at_time 60) ∷ []

reachable_sound_example : (rejected_record.request_id ≡ "r-1") × IsWellFormed rejected_record
unfolding after_all after maybe_expire new_record ◌+ℤ◌ ◌*ℤ◌ rejected_once
reachable_sound_example = reachable_sound rejection "r-1" rejected_record refl

abbrev later : List (Call Micro)
later =
    approve operator "r-1" no_comment (at_time 90)
    ∷ create operator request "r-2" (at_time 95)
    ∷ list operator none (λ _. at_time 9999)
    ∷ []

apart : ◌≢◌ {A = String} "r-2" "r-1"
apart e = ground (arith, str_eq_iff "r-2" "r-1")

resolved_is_final_example :
    lookup "r-1" (after_all later (after_all rejection [])) ≡ some rejected_record
unfolding after_all after maybe_expire new_record ◌+ℤ◌ ◌*ℤ◌ rejected_once
resolved_is_final_example =
    resolved_is_final rejection later "r-1" rejected_record refl refl (apart, tt)

abbrev stored : Store Micro
stored = ("r-1", pending_record) ∷ []

late_decision_refused_example :
    let (reply, left) = approve_request stored operator "r-1" no_comment (at_time 901) in
    let (reply', left') = reject_request stored operator "r-1" no_comment (at_time 901) in
    (reply ≡ err ApprovalError.request_not_pending)
    × (reply' ≡ err ApprovalError.request_not_pending)
    × (lookup "r-1" left
        ≡ some (record pending_record {
          status = ApprovalStatus.expired;
          updated_at = seconds 901;
          resolved_at = some (seconds 901);
        }))
    × (left' ≡ left)
unfolding pending_record ◌+ℤ◌ ◌*ℤ◌
late_decision_refused_example =
    late_decision_refused stored operator "r-1" pending_record no_comment (at_time 901) refl refl
      refl refl

one_caller_approves_twice_example :
    let made = (request_approval [] operator request "r-1" (at_time 0)).1 in
    let once = (approve_request made operator "r-1" no_comment (at_time 10)).1 in
    let twice = (approve_request once operator "r-1" no_comment (at_time 20)).1 in
    ((r : ApprovalRecord Micro) × (lookup "r-1" once ≡ some r)
      × (r.status ≡ ApprovalStatus.pending))
    × ((r : ApprovalRecord Micro) × (lookup "r-1" twice ≡ some r)
        × (r.status ≡ ApprovalStatus.approved))
unfolding new_record ◌+ℤ◌ ◌*ℤ◌
one_caller_approves_twice_example =
    one_caller_approves_twice operator request "r-1" no_comment no_comment (at_time 0) (at_time 10)
      (at_time 20) refl (leb→le 5 5 refl) refl refl
