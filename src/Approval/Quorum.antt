-- ===== src/Approval/Quorum.antt =====
-- Deadlines, and how approvals are counted.
use c_e.Common.{◌≤◌, true, false, String, [], some, ◌≡◌, refl, arith, str_eq_refl, tests}
use c_e.Common.Dict.{lookup, insert, lookup-insert}
use c_e.Common.Float.{Float}
use c_e.Approval.Data.{
  ApprovalStatus, ApprovalDecision, ApprovalRequest, ApprovalRecord, ApprovalError, Caller, Clock,
  Store, err, authorized,
}
use c_e.Approval.Handlers.{
  approve_request, reject_request, request_approval, maybe_expire, approved_once, new_record,
}
use c_e.Approval.Runs.{approved_once-id}

module _ {F : Type 0} ⦃o : Float F⦄ (store : Store F) (caller : Caller) (key : String)
    (r : ApprovalRecord F) (d : ApprovalDecision) (t : Clock F) where
  -- An authorized approval or rejection of a pending request whose deadline lies before the reading
  -- of the clock is refused with 409, and the stored record is expired from then on.
  pub late_decision_refused :
      authorized caller ≡ true
      → lookup key store ≡ some r
      → r.status ≡ ApprovalStatus.pending
      → o.lt r.deadline_ts t.tested ≡ true
      → let (reply, stored) = approve_request store caller key d t in
        let (reply', stored') = reject_request store caller key d t in
        (reply ≡ err ApprovalError.request_not_pending)
        × (reply' ≡ err ApprovalError.request_not_pending)
        × (lookup key stored
            ≡ some (record r {
              status = ApprovalStatus.expired;
              updated_at = t.expiring;
              resolved_at = some t.expiring;
            }))
        × (stored' ≡ stored)
  unfolding approve_request reject_request maybe_expire
  late_decision_refused allowed found open_ late =
      ground (arith, lookup-insert key key (maybe_expire t r) store, str_eq_refl key)

  approve-counts :
      authorized caller ≡ true
      → lookup key store ≡ some r
      → r.request_id ≡ key
      → r.status ≡ ApprovalStatus.pending
      → o.lt r.deadline_ts t.tested ≡ false
      → lookup key (approve_request store caller key d t).1 ≡ some (approved_once d t.deciding r)
  unfolding approve_request maybe_expire
  approve-counts allowed found same open_ early = ground (
    arith,
    lookup-insert key key (approved_once d t.deciding r) (insert key r store),
    lookup-insert (approved_once d t.deciding r).request_id key (approved_once d t.deciding r)
        (insert key (approved_once d t.deciding r) (insert key r store)),
    str_eq_refl key,
    approved_once-id d t.deciding r,
  )

module _ {F : Type 0} ⦃o : Float F⦄ (caller : Caller) (q : ApprovalRequest) (id : String)
    (d e : ApprovalDecision) (start first second : Clock F) where
  -- A request of risk level 5 or more asks for two approvals, and two calls of one and the same
  -- caller give them: after the first the request is pending, after the second it is approved, if
  -- the clock of neither call is past the deadline.
  pub one_caller_approves_twice :
      authorized caller ≡ true
      → 5 ≤ q.risk_level
      → o.lt (new_record q id start.deciding).deadline_ts first.tested ≡ false
      → o.lt (new_record q id start.deciding).deadline_ts second.tested ≡ false
      → let created = (request_approval [] caller q id start).1 in
        let once = (approve_request created caller id d first).1 in
        let twice = (approve_request once caller id e second).1 in
        (((r : ApprovalRecord F) × (lookup id once ≡ some r) × (r.status ≡ ApprovalStatus.pending)))
        × ((r : ApprovalRecord F) × (lookup id twice ≡ some r)
            × (r.status ≡ ApprovalStatus.approved))
  unfolding request_approval new_record approved_once
  one_caller_approves_twice allowed risk early early' =
      let r : ApprovalRecord F = new_record q id start.deciding in
      let created : Store F = (request_approval [] caller q id start).1 in
      let once : Store F = (approve_request created caller id d first).1 in
      let r' : ApprovalRecord F = approved_once d first.deciding r in
      let found : lookup id created ≡ some r = ground (arith, str_eq_refl id) in
      let first_counts = approve-counts created caller id r d first allowed found refl refl early in
      let pending : r'.status ≡ ApprovalStatus.pending = grind tests in
      (
        (r', first_counts, pending),
        (
          approved_once e second.deciding r',
          approve-counts once caller id r' e second allowed first_counts (grind tests) pending
              (grind tests),
          grind tests,
        ),
      )
