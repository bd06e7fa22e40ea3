-- ===== src/Approval/Data.antt =====
-- The records and enumerations of the approval service.
use c_e.Common.{ℕ, Bool, true, false, ◌||◌, String, List, Option, none, some, str_eq}
use c_e.Common.Dict.{Dict}

pub data ApprovalStatus : Type 0 where
  pending approved rejected expired : ApprovalStatus

abbrev pub is_pending : ApprovalStatus → Bool
is_pending ApprovalStatus.pending = true
is_pending _ = false

abbrev pub same_status : ApprovalStatus → ApprovalStatus → Bool
same_status ApprovalStatus.pending ApprovalStatus.pending = true
same_status ApprovalStatus.approved ApprovalStatus.approved = true
same_status ApprovalStatus.rejected ApprovalStatus.rejected = true
same_status ApprovalStatus.expired ApprovalStatus.expired = true
same_status _ _ = false

pub record ApprovalAction : Type 0 where
  pub task_id : String
  pub intent : String
  pub risk_level : ℕ
  pub dry_run_required : Bool

-- The values of `risk_envelope` are carried as their JSON texts.
pub record ApprovalRequest : Type 0 where
  pub plan_id : String
  pub requestor_id : String
  pub actions : List ApprovalAction
  pub reasoning : String
  pub risk_level : ℕ
  pub correlation_id : String
  pub execution_mode : String
  pub capability_maturity : String
  pub degraded_mode : Bool
  pub risk_envelope : Dict String

pub record ApprovalDecision : Type 0 where
  pub comment : Option String
  pub reason : Option String

pub record ApprovalRecord (F : Type 0) : Type 0 where
  pub plan_id : String
  pub requestor_id : String
  pub actions : List ApprovalAction
  pub reasoning : String
  pub risk_level : ℕ
  pub request_id : String
  pub created_at : F
  pub updated_at : F
  pub deadline_ts : F
  pub approvers_required : ℕ
  pub approvals_received : ℕ
  pub status : ApprovalStatus
  pub last_comment : String
  pub last_reason : String
  pub resolved_at : Option F
  pub correlation_id : String
  pub execution_mode : String
  pub capability_maturity : String
  pub degraded_mode : Bool
  pub risk_envelope : Dict String

-- The readings of the clock: at the test of the deadline, where a record expires, and where a
-- decision is taken or a request created.
pub record Clock (F : Type 0) : Type 0 where
  pub tested : F
  pub expiring : F
  pub deciding : F

pub data ApprovalError : Type 0 where
  -- 403, 404 and 409
  internal_api_auth_required request_not_found request_not_pending : ApprovalError

pub data Reply (A : Type 0) : Type 0 where
  ok : A → Reply A
  err : ApprovalError → Reply A

-- `x or ""`
abbrev pub text_or_empty : Option String → String
text_or_empty none = ""
text_or_empty (some s) = s

-- The stripped `CORTEX_INTERNAL_API_TOKEN` and the token header of the request.
pub record Caller : Type 0 where
  pub expected : String
  pub header : String

-- `require_internal_api` lets the request pass.
abbrev pub authorized : Caller → Bool
authorized c = str_eq c.expected "" || str_eq c.header c.expected

abbrev pub Store : Type 0 → Type 0
Store F = Dict (ApprovalRecord F)

abbrev pub Handled : Type 0 → Type 0
Handled F = Reply (ApprovalRecord F) × Store F
