-- ===== src/Approval/Runs.antt =====
-- Sequences of requests to the approval service, from any mixture of callers.
use c_e.Common.{
  Bool, true, false, String, List, [], ◌∷◌, Option, none, some, ◌≡◌, refl, ◌∙◌, arith,
  if◌then◌else◌, Bool-cases, inl, inr, none-ne-some, subst, sym, str_eq, str_eq_iff,
}
use c_e.Common.Dict.{lookup, insert, Holds, insert-Holds}
use c_e.Common.Float.{Float}
use c_e.Approval.Data.{
  ApprovalStatus, is_pending, ApprovalDecision, ApprovalRequest, ApprovalRecord, Caller, Clock,
  Store, Handled, ok, err, ApprovalError, authorized,
}
use c_e.Approval.Handlers.{
  maybe_expire, new_record, approved_once, rejected_once, request_approval, get_approval,
  approve_request, reject_request, list_approvals, list_records, get_record_or_404, persist, decide,
  expire_all,
}
use c_e.Approval.Records.{
  IsWellFormed, maybe_expire-IsWellFormed, new_record-IsWellFormed, approved_once-IsWellFormed,
  rejected_once-IsWellFormed,
}

pub data Call (F : Type 0) : Type 0 where
  create : Caller → ApprovalRequest → (request_id : String) → Clock F → Call F
  read : Caller → (key : String) → Clock F → Call F
  approve : Caller → (key : String) → ApprovalDecision → Clock F → Call F
  reject : Caller → (key : String) → ApprovalDecision → Clock F → Call F
  list : Caller → Option ApprovalStatus → (String → Clock F) → Call F

module _ {F : Type 0} ⦃o : Float F⦄ where
  -- The store after a call.
  unfoldable pub after : Call F → Store F → Store F
  unfolding request_approval get_approval approve_request reject_request list_approvals
  after (create c q id t) store = (request_approval store c q id t).1
  after (read c key t) store = (get_approval store c key t).1
  after (approve c key d t) store = (approve_request store c key d t).1
  after (reject c key d t) store = (reject_request store c key d t).1
  after (list c status t) store = (list_approvals store c status t).1

  unfoldable pub after_all : List (Call F) → Store F → Store F
  after_all [] store = store
  after_all (x ∷ xs) store = after_all xs (after x store)

  -- Each record is stored under its own id and is well formed.
  abbrev Sound : String → ApprovalRecord F → Type 0
  Sound key r = (r.request_id ≡ key) × IsWellFormed r

  abbrev pub IsSound : Store F → Type 0
  IsSound = Holds Sound

  lookup-expire_all :
      (t : String → Clock F) (store : Store F) (key : String) (r : ApprovalRecord F)
      → lookup key (expire_all t store) ≡ some r
      → (s : ApprovalRecord F) × (lookup key store ≡ some s) × (r ≡ maybe_expire (t key) s)
  unfolding expire_all
  lookup-expire_all t [] key r e = absurd (none-ne-some e)
  lookup-expire_all t ((k, s) ∷ store) key r e = elim (Bool-cases (str_eq k key)) [
    | inl q ↦ (s, ground arith, ground (arith, str_eq_iff k key))
    | inr q ↦
        let (s', found, same) = lookup-expire_all t store key r (ground arith) in
        (s', ground arith, same)
  ]

  pub maybe_expire-id :
      (t : Clock F) (r : ApprovalRecord F) → (maybe_expire t r).request_id ≡ r.request_id
  unfolding maybe_expire
  maybe_expire-id t r = ground arith

  new_record-id :
      (q : ApprovalRequest) (id : String) (now : F) → (new_record q id now).request_id ≡ id
  unfolding new_record
  new_record-id q id now = refl

  pub approved_once-id :
      (d : ApprovalDecision) (now : F) (r : ApprovalRecord F)
      → (approved_once d now r).request_id ≡ r.request_id
  unfolding approved_once
  approved_once-id d now r = ground arith

  pub rejected_once-id :
      (d : ApprovalDecision) (now : F) (r : ApprovalRecord F)
      → (rejected_once d now r).request_id ≡ r.request_id
  unfolding rejected_once
  rejected_once-id d now r = refl

  expire-IsSound :
      (key : String) (t : Clock F) (store : Store F) (r : ApprovalRecord F)
      → IsSound store
      → lookup key store ≡ some r
      → (maybe_expire t r).request_id ≡ key × IsWellFormed (maybe_expire t r)
  expire-IsSound key t store r h e =
      (maybe_expire-id t r ∙ (h key r e).0, maybe_expire-IsWellFormed t r (h key r e).1)

  expire_all-IsSound :
      (t : String → Clock F) (store : Store F) → IsSound store → IsSound (expire_all t store)
  expire_all-IsSound t store h key r e =
      let (s, found, same) = lookup-expire_all t store key r e in
      subst (λ x. (x.request_id ≡ key) × IsWellFormed x) (sym same)
        (expire-IsSound key (t key) store s h found)

  pub either_keeps :
      (P : Store F → Type 0) {A : Type 0} (b : Bool) (x y : A × Store F)
      → (b ≡ true → P x.1)
      → (b ≡ false → P y.1)
      → P (if◌then◌else◌ {A = A × Store F} b x y).1
  either_keeps P true x y h k = h refl
  either_keeps P false x y h k = k refl

  found-IsSound :
      (store : Store F) (key : String) (t : Clock F)
      → (next : ApprovalRecord F → Store F → Handled F) → (found : Option (ApprovalRecord F))
      → lookup key store ≡ found
      → IsSound store
      → ((r : ApprovalRecord F) (s : Store F)
          → r.request_id ≡ key
          → IsWellFormed r
          → IsSound s
          → IsSound (next r s).1)
      → IsSound
          (elim found as (λ _. Handled F) [
            | none ↦ (err ApprovalError.request_not_found, store)
            | some r ↦ next (maybe_expire t r) (insert key (maybe_expire t r) store)
          ]).1
  found-IsSound store key t next none e h k = h
  found-IsSound store key t next (some r) e h k =
      let (same, well) = expire-IsSound key t store r h e in
      k (maybe_expire t r) (insert key (maybe_expire t r) store) same well
        (insert-Holds Sound key (maybe_expire t r) store (same, well) h)

  decide-IsSound :
      (change : ApprovalRecord F → ApprovalRecord F)
      → ((r : ApprovalRecord F)
          → is_pending r.status ≡ true
          → IsWellFormed r
          → IsWellFormed (change r))
      → ((r : ApprovalRecord F) → (change r).request_id ≡ r.request_id)
      → (key : String) (r : ApprovalRecord F) (s : Store F) → r.request_id ≡ key
      → IsWellFormed r
      → IsSound s
      → IsSound (decide key change r s).1
  decide-IsSound change keeps same key r s e well h =
      either_keeps IsSound (is_pending r.status) (ok (change r), persist key (change r) s)
        (err ApprovalError.request_not_pending, s)
        (λ p.
          let sound : Holds Sound (insert key (change r) s) =
            insert-Holds Sound key (change r) s (same r ∙ e, keeps r p well) h in
          insert-Holds Sound (change r).request_id (change r) (insert key (change r) s)
            (refl, keeps r p well) sound)
        (λ _. h)

  pub after-IsSound : (x : Call F) (store : Store F) → IsSound store → IsSound (after x store)
  unfolding after get_record_or_404 list_records
  after-IsSound (create c q id t) store h =
      either_keeps IsSound (authorized c) _ _
        (λ _.
          insert-Holds Sound id (new_record q id t.deciding) store
            (new_record-id q id t.deciding, new_record-IsWellFormed q id t.deciding) h)
        (λ _. h)
  after-IsSound (read c key t) store h =
      either_keeps IsSound (authorized c) _ _
        (λ _.
          found-IsSound store key t (λ r s. (ok r, s)) (lookup key store) refl h (λ r s _ _ k. k))
        (λ _. h)
  after-IsSound (approve c key d t) store h =
      either_keeps IsSound (authorized c) _ _
        (λ _.
          found-IsSound store key t (decide key (approved_once d t.deciding)) (lookup key store)
            refl h
            (decide-IsSound (approved_once d t.deciding) (approved_once-IsWellFormed d t.deciding)
              (approved_once-id d t.deciding) key))
        (λ _. h)
  after-IsSound (reject c key d t) store h =
      either_keeps IsSound (authorized c) _ _
        (λ _.
          found-IsSound store key t (decide key (rejected_once d t.deciding)) (lookup key store)
            refl h
            (decide-IsSound (rejected_once d t.deciding) (rejected_once-IsWellFormed d t.deciding)
              (rejected_once-id d t.deciding) key))
        (λ _. h)
  after-IsSound (list c status t) store h =
      either_keeps IsSound (authorized c) _ _ (λ _. expire_all-IsSound t store h) (λ _. h)

  after_all-IsSound :
      (xs : List (Call F)) (store : Store F) → IsSound store → IsSound (after_all xs store)
  unfolding after_all
  after_all-IsSound [] store h = h
  after_all-IsSound (x ∷ xs) store h =
      after_all-IsSound xs (after x store) (after-IsSound x store h)

  -- After any sequence of calls on an empty store, each record stands under its own id, needs two
  -- approvals from risk level 5 on and one below, holds exactly that many if it is approved and
  -- fewer otherwise, and has a time of resolution exactly when it is no longer pending.
  pub reachable_sound :
      (xs : List (Call F)) (key : String) (r : ApprovalRecord F)
      → lookup key (after_all xs []) ≡ some r
      → (r.request_id ≡ key) × IsWellFormed r
  reachable_sound xs = after_all-IsSound xs [] (λ key r e. absurd (none-ne-some e))
