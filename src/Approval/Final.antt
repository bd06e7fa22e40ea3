-- ===== src/Approval/Final.antt =====
-- A decision on a request is final.
use c_e.Common.{
  false, String, List, [], ◌∷◌, Option, none, some, ◌≡◌, ◌≢◌, refl, sym, ◌∙◌, ap, arith, Bool-cases,
  inl, inr, none-ne-some, subst, str_eq, str_eq_iff,
}
use c_e.Common.Dict.{lookup, insert, lookup-insert}
use c_e.Common.Float.{Float}
use c_e.Approval.Data.{
  is_pending, ApprovalRecord, Clock, Store, authorized, Handled, ok, err, ApprovalError,
}
use c_e.Approval.Handlers.{
  maybe_expire, approved_once, rejected_once, expire_all, persist, decide, get_record_or_404,
  list_records, new_record,
}
use c_e.Approval.Runs.{
  Call, create, read, approve, reject, list, after, after_all, IsSound, either_keeps,
  approved_once-id, rejected_once-id, maybe_expire-id, after-IsSound, reachable_sound,
}

-- No call of the list creates a request under the id.
abbrev Unused : {F : Type 0} → String → List (Call F) → Type 0
Unused key [] = Unit
Unused key (create c q id t ∷ xs) = (id ≢ key) × Unused key xs
Unused key (x ∷ xs) = Unused key xs

Unused-first :
    {F : Type 0} (key : String) (x : Call F) (xs : List (Call F))
    → Unused key (x ∷ xs)
    → Unused key (x ∷ [])
Unused-first key (create c q id t) xs (h, _) = (h, tt)
Unused-first key (read c k t) xs h = tt
Unused-first key (approve c k d t) xs h = tt
Unused-first key (reject c k d t) xs h = tt
Unused-first key (list c s t) xs h = tt

Unused-rest :
    {F : Type 0} (key : String) (x : Call F) (xs : List (Call F))
    → Unused key (x ∷ xs)
    → Unused key xs
Unused-rest key (create c q id t) xs (_, h) = h
Unused-rest key (read c k t) xs h = h
Unused-rest key (approve c k d t) xs h = h
Unused-rest key (reject c k d t) xs h = h
Unused-rest key (list c s t) xs h = h

module _ {F : Type 0} ⦃o : Float F⦄ (key : String) (r : ApprovalRecord F)
    (closed : is_pending r.status ≡ false) where
  abbrev Kept : Store F → Type 0
  Kept store = lookup key store ≡ some r

  insert-Kept :
      (k : String) (v : ApprovalRecord F) (store : Store F)
      → (k ≡ key → v ≡ r)
      → Kept store
      → Kept (insert k v store)
  insert-Kept k v store same h = elim (Bool-cases (str_eq k key)) [
    | inl e ↦ ground (arith, lookup-insert k key v store, same ((str_eq_iff k key).0 e))
    | inr e ↦ ground (arith, lookup-insert k key v store)
  ]

  maybe_expire-closed : (t : Clock F) → maybe_expire t r ≡ r
  unfolding maybe_expire
  maybe_expire-closed t = ground arith

  expire_all-Kept :
      (t : String → Clock F) (store : Store F) → Kept store → Kept (expire_all t store)
  unfolding expire_all
  expire_all-Kept t [] h = absurd (none-ne-some h)
  expire_all-Kept t ((k, s) ∷ store) h = elim (Bool-cases (str_eq k key)) [
    | inl e ↦
        let same : s ≡ r = ground arith in
        let kept : maybe_expire (t k) s ≡ r =
          subst (λ x. maybe_expire (t k) x ≡ r) (sym same) (maybe_expire-closed (t k)) in
        ground arith
    | inr e ↦ ground (arith, expire_all-Kept t store)
  ]

  expire-Kept :
      (k : String) (t : Clock F) (s : ApprovalRecord F) (store : Store F)
      → lookup k store ≡ some s
      → Kept store
      → k ≡ key
      → maybe_expire t s ≡ r
  expire-Kept k t s store e h same =
      let found : s ≡ r = ground arith in
      subst (λ x. maybe_expire t x ≡ r) (sym found) (maybe_expire-closed t)

  found-Kept :
      (store : Store F) (k : String) (t : Clock F)
      → (next : ApprovalRecord F → Store F → Handled F) → (found : Option (ApprovalRecord F))
      → lookup k store ≡ found
      → IsSound store
      → Kept store
      → ((x : ApprovalRecord F) (s : Store F)
          → x.request_id ≡ k
          → (k ≡ key → x ≡ r)
          → Kept s
          → Kept (next x s).1)
      → Kept
          (elim found as (λ _. Handled F) [
            | none ↦ (err ApprovalError.request_not_found, store)
            | some x ↦ next (maybe_expire t x) (insert k (maybe_expire t x) store)
          ]).1
  found-Kept store k t next none e sound h go = h
  found-Kept store k t next (some s) e sound h go =
      go (maybe_expire t s) (insert k (maybe_expire t s) store)
        (maybe_expire-id t s ∙ (sound k s e).0) (expire-Kept k t s store e h)
        (insert-Kept k (maybe_expire t s) store (expire-Kept k t s store e h) h)

  decide-Kept :
      (change : ApprovalRecord F → ApprovalRecord F)
      → ((x : ApprovalRecord F) → (change x).request_id ≡ x.request_id)
      → (k : String) (x : ApprovalRecord F) (s : Store F) → x.request_id ≡ k
      → (k ≡ key → x ≡ r)
      → Kept s
      → Kept (decide k change x s).1
  decide-Kept change same k x s e here h =
      either_keeps Kept (is_pending x.status) (ok (change x), persist k (change x) s)
        (err ApprovalError.request_not_pending, s)
        (λ p.
          let other : k ≢ key = λ q.
            let y : is_pending x.status ≡ is_pending r.status =
              ap (λ z. is_pending z.status) (here q) in
            ground arith in
          insert-Kept (change x).request_id (change x) (insert k (change x) s)
            (λ q. absurd (other (sym (same x ∙ e) ∙ q)))
            (insert-Kept k (change x) s (λ q. absurd (other q)) h))
        (λ _. h)

  after-Kept :
      (x : Call F) (store : Store F)
      → Unused key (x ∷ [])
      → IsSound store
      → Kept store
      → Kept (after x store)
  unfolding after get_record_or_404 list_records
  after-Kept (create c q id t) store (free, _) sound h =
      either_keeps Kept (authorized c) _ _
        (λ _. insert-Kept id (new_record q id t.deciding) store (λ e. absurd (free e)) h) (λ _. h)
  after-Kept (read c k t) store free sound h =
      either_keeps Kept (authorized c) _ _
        (λ _.
          found-Kept store k t (λ x s. (ok x, s)) (lookup k store) refl sound h (λ x s _ _ e. e))
        (λ _. h)
  after-Kept (approve c k d t) store free sound h =
      either_keeps Kept (authorized c) _ _
        (λ _.
          found-Kept store k t (decide k (approved_once d t.deciding)) (lookup k store) refl sound h
            (decide-Kept (approved_once d t.deciding) (approved_once-id d t.deciding) k))
        (λ _. h)
  after-Kept (reject c k d t) store free sound h =
      either_keeps Kept (authorized c) _ _
        (λ _.
          found-Kept store k t (decide k (rejected_once d t.deciding)) (lookup k store) refl sound h
            (decide-Kept (rejected_once d t.deciding) (rejected_once-id d t.deciding) k))
        (λ _. h)
  after-Kept (list c status t) store free sound h =
      either_keeps Kept (authorized c) _ _ (λ _. expire_all-Kept t store h) (λ _. h)

  after_all-Kept :
      (xs : List (Call F)) (store : Store F)
      → Unused key xs
      → IsSound store
      → Kept store
      → Kept (after_all xs store)
  unfolding after_all
  after_all-Kept [] store free sound h = h
  after_all-Kept (x ∷ xs) store free sound h =
      after_all-Kept xs (after x store) (Unused-rest key x xs free) (after-IsSound x store sound)
        (after-Kept x store (Unused-first key x xs free) sound h)

module _ {F : Type 0} ⦃o : Float F⦄ where
  -- A record that is approved, rejected or expired stays as it is: whatever calls led to it, no
  -- further calls change it in any field, as long as none creates a request under the same id.
  pub resolved_is_final :
      (xs ys : List (Call F)) (key : String) (r : ApprovalRecord F)
      → lookup key (after_all xs []) ≡ some r
      → is_pending r.status ≡ false
      → Unused key ys
      → lookup key (after_all ys (after_all xs [])) ≡ some r
  resolved_is_final xs ys key r found closed free =
      after_all-Kept key r closed ys (after_all xs []) free (reachable_sound xs) found
