-- ===== src/Approval/Records.antt =====
-- Single approval records: their well-formedness, and that the record operations keep it.
use c_e.Common.{ℕ, ◌<◌, true, not, String, ◌≡◌, arith, if◌then◌else◌, leb}
use c_e.Common.Float.{Float}
use c_e.Core.Sot.{is_some}
use c_e.Approval.Data.{
  ApprovalStatus, is_pending, ApprovalDecision, ApprovalRequest, ApprovalRecord, Clock,
}
use c_e.Approval.Handlers.{maybe_expire, new_record, approved_once, rejected_once}

-- The approvals of a record of status s: too few while it is open, exactly enough once approved.
abbrev Counted : ApprovalStatus → (received required : ℕ) → Type 0
Counted ApprovalStatus.approved received required = received ≡ required
Counted _ received required = received < required

module _ {F : Type 0} ⦃o : Float F⦄ where
  abbrev pub IsWellFormed : ApprovalRecord F → Type 0
  IsWellFormed r =
      (Counted r.status r.approvals_received r.approvers_required)
      × (r.approvers_required ≡ (if leb 5 r.risk_level then 2 else 1))
      × (is_some r.resolved_at ≡ not (is_pending r.status))

  pub maybe_expire-IsWellFormed :
      (t : Clock F) (r : ApprovalRecord F) → IsWellFormed r → IsWellFormed (maybe_expire t r)
  unfolding maybe_expire
  maybe_expire-IsWellFormed t r h = ground arith

  pub new_record-IsWellFormed :
      (q : ApprovalRequest) (id : String) (now : F) → IsWellFormed (new_record q id now)
  unfolding new_record
  new_record-IsWellFormed q id now = ground arith

  pub approved_once-IsWellFormed :
      (d : ApprovalDecision) (now : F) (r : ApprovalRecord F)
      → is_pending r.status ≡ true
      → IsWellFormed r
      → IsWellFormed (approved_once d now r)
  unfolding approved_once
  approved_once-IsWellFormed d now r p h = ground arith

  pub rejected_once-IsWellFormed :
      (d : ApprovalDecision) (now : F) (r : ApprovalRecord F)
      → is_pending r.status ≡ true
      → IsWellFormed r
      → IsWellFormed (rejected_once d now r)
  unfolding rejected_once
  rejected_once-IsWellFormed d now r p h = ground arith
