-- ===== src/Approval/Listing.antt =====
-- What the list of requests returns.
use c_e.Common.{true, String, List, [], ◌∷◌, some, ◌≡◌, All, All-filter, map, Bool-cases, inl, inr}
use c_e.Common.Float.{Float}
use c_e.Approval.Data.{ApprovalStatus, ApprovalRecord, Clock, Store, same_status}
use c_e.Approval.Handlers.{list_records, place, newest_first, wanted, expire_all}

module _ {F : Type 0} ⦃o : Float F⦄ where
  place-All :
      (P : ApprovalRecord F → Type 0) (r : ApprovalRecord F) (rs : List (ApprovalRecord F))
      → P r
      → All P rs
      → All P (place r rs)
  place-All P r [] p ps = (p, tt)
  place-All P r (s ∷ rs) p (q, ps) = elim (Bool-cases (o.lt r.created_at s.created_at)) [
    | inl e ↦ rw e (q, place-All P r rs p ps)
    | inr e ↦ rw e (p, (q, ps))
  ]

  newest_first-All :
      (P : ApprovalRecord F → Type 0) (rs : List (ApprovalRecord F))
      → All P rs
      → All P (newest_first rs)
  newest_first-All P [] ps = ps
  newest_first-All P (r ∷ rs) (p, ps) = place-All P r (newest_first rs) p (newest_first-All P rs ps)

  -- A list of the requests of one status returns only records that have this status after the
  -- deadlines were applied.
  listed_have_status :
      (store : Store F) (status : ApprovalStatus) (t : String → Clock F)
      → All (λ r. same_status r.status status ≡ true) (list_records store (some status) t).0
  unfolding list_records
  listed_have_status store status t =
      newest_first-All (λ r. same_status r.status status ≡ true) _
        (All-filter (wanted (some status)) (map (λ entry. entry.1) (expire_all t store)))
