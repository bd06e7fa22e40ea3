-- ===== src/Approval/Handlers.antt =====
-- The record operations and the handlers of the approval service.
use c_e.Common.{
  Bool, true, ◌&&◌, ◌+◌, String, List, [], ◌∷◌, Option, none, some, leb, map, if◌then◌else◌, filter,
}
use c_e.Common.Dict.{lookup, insert}
use c_e.Common.Float.{Float}
use c_e.Approval.Data.{
  ApprovalDecision, ApprovalError, ApprovalRecord, ApprovalRequest, ApprovalStatus, Caller, Clock,
  Handled, Reply, Store, authorized, err, is_pending, ok, same_status, text_or_empty,
}

module _ {F : Type 0} ⦃o : Float F⦄ where
  open o use {lit, lt, add}

  unfoldable pub maybe_expire : Clock F → ApprovalRecord F → ApprovalRecord F
  maybe_expire t r =
      if is_pending r.status && lt r.deadline_ts t.tested
      then record r {
        status = ApprovalStatus.expired;
        updated_at = t.expiring;
        resolved_at = some t.expiring;
      }
      else r

  -- A record's mutation, then `persist`: the object under `key` is the one changed, and it is
  -- stored under its own id.
  abbrev pub persist : String → ApprovalRecord F → Store F → Store F
  persist key r store = insert r.request_id r (insert key r store)

  abbrev with_record :
      Store F → String → Clock F → (ApprovalRecord F → Store F → Handled F) → Handled F
  with_record store key t next = elim (lookup key store) [
    | none ↦ (err ApprovalError.request_not_found, store)
    | some r ↦ next (maybe_expire t r) (insert key (maybe_expire t r) store)
  ]

  unfoldable pub get_record_or_404 : Store F → String → Clock F → Handled F
  get_record_or_404 store key t = with_record store key t (λ r s. (ok r, s))

  unfoldable pub new_record : ApprovalRequest → (request_id : String) → F → ApprovalRecord F
  new_record q id now = record {
    plan_id = q.plan_id;
    requestor_id = q.requestor_id;
    actions = q.actions;
    reasoning = q.reasoning;
    risk_level = q.risk_level;
    request_id = id;
    created_at = now;
    updated_at = now;
    deadline_ts = add now (lit (if leb 5 q.risk_level then 900_000_000 else 1_800_000_000));
    approvers_required = if leb 5 q.risk_level then 2 else 1;
    approvals_received = 0;
    status = ApprovalStatus.pending;
    last_comment = "";
    last_reason = "";
    resolved_at = none;
    correlation_id = q.correlation_id;
    execution_mode = q.execution_mode;
    capability_maturity = q.capability_maturity;
    degraded_mode = q.degraded_mode;
    risk_envelope = q.risk_envelope;
  }

  unfoldable pub approved_once : ApprovalDecision → F → ApprovalRecord F → ApprovalRecord F
  approved_once d now r =
      let counted : ApprovalRecord F = record r {
        approvals_received = r.approvals_received + 1;
        last_comment = text_or_empty d.comment;
        updated_at = now;
      } in
      if leb r.approvers_required (r.approvals_received + 1)
      then record counted { status = ApprovalStatus.approved; resolved_at = some now }
      else counted

  unfoldable pub rejected_once : ApprovalDecision → F → ApprovalRecord F → ApprovalRecord F
  rejected_once d now r = record r {
    status = ApprovalStatus.rejected;
    last_reason = text_or_empty d.reason;
    updated_at = now;
    resolved_at = some now;
  }

  abbrev pub decide :
      String → (ApprovalRecord F → ApprovalRecord F) → ApprovalRecord F → Store F → Handled F
  decide key change r store =
      if is_pending r.status
      then (ok (change r), persist key (change r) store)
      else (err ApprovalError.request_not_pending, store)

  unfoldable pub request_approval :
      Store F → Caller → ApprovalRequest → (request_id : String) → Clock F → Handled F
  request_approval store caller q id t =
      if authorized caller
      then (ok (new_record q id t.deciding), insert id (new_record q id t.deciding) store)
      else (err ApprovalError.internal_api_auth_required, store)

  unfoldable pub get_approval : Store F → Caller → String → Clock F → Handled F
  get_approval store caller key t =
      if authorized caller
      then get_record_or_404 store key t
      else (err ApprovalError.internal_api_auth_required, store)

  unfoldable pub approve_request :
      Store F → Caller → String → ApprovalDecision → Clock F → Handled F
  approve_request store caller key d t =
      if authorized caller
      then with_record store key t (decide key (approved_once d t.deciding))
      else (err ApprovalError.internal_api_auth_required, store)

  unfoldable pub reject_request : Store F → Caller → String → ApprovalDecision → Clock F → Handled F
  reject_request store caller key d t =
      if authorized caller
      then with_record store key t (decide key (rejected_once d t.deciding))
      else (err ApprovalError.internal_api_auth_required, store)

  -- `maybe_expire` of every stored record, each with its own readings of the clock.
  unfoldable pub expire_all : (String → Clock F) → Store F → Store F
  expire_all t [] = []
  expire_all t ((key, r) ∷ store) = (key, maybe_expire (t key) r) ∷ expire_all t store

  -- A stable sort, newest first.
  abbrev pub place : ApprovalRecord F → List (ApprovalRecord F) → List (ApprovalRecord F)
  place r [] = r ∷ []
  place r (s ∷ rest) = if lt r.created_at s.created_at then s ∷ place r rest else r ∷ s ∷ rest

  abbrev pub newest_first : List (ApprovalRecord F) → List (ApprovalRecord F)
  newest_first [] = []
  newest_first (r ∷ rest) = place r (newest_first rest)

  abbrev pub wanted : Option ApprovalStatus → ApprovalRecord F → Bool
  wanted none r = true
  wanted (some status) r = same_status r.status status

  -- `status` is `none` for "all".
  unfoldable pub list_records :
      Store F → Option ApprovalStatus → (String → Clock F) → List (ApprovalRecord F) × Store F
  list_records store status t =
      let stored : Store F = expire_all t store in
      (newest_first (filter (wanted status) (map (λ entry. entry.1) stored)), stored)

  unfoldable pub list_approvals :
      Store F
      → Caller
      → Option ApprovalStatus
      → (String → Clock F)
      → Reply (List (ApprovalRecord F)) × Store F
  list_approvals store caller status t =
      if authorized caller
      then (let (found, stored) = list_records store status t in (ok found, stored))
      else (err ApprovalError.internal_api_auth_required, store)
