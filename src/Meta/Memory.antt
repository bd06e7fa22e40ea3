-- ===== src/Meta/Memory.antt =====
-- What a reuse decision can rest on, after any use of the case memory.
use c_e.Common.{
  ℕ, Bool, true, false, not, ◌&&◌, ◌||◌, String, List, [], ◌∷◌, map, Option, some, ◌≡◌, ◌≢◌, refl,
  arith, filter, take, all, str_eq, str_eq_iff, Bool-cases, inl, inr,
}
use c_e.Common.Dict.{Dict}
use c_e.Common.Float.{Float}
use c_e.Meta.{
  MemoryCase, Match, Limits, is_expired, is_active, active_cases, store_case, invalidate,
  lookup_cases, match_of,
}
use c_e.Common.{
  none-ne-some, subst, all-drop, all-take, all-append, all-filter, all-filter_both, all-map,
}
use c_e.Meta.Reuse.{is_critical, decide, decide_best}

pub data MemoryCall (F : Type 0) : Type 0 where
  stored : F → Option ℕ → MemoryCase F → MemoryCall F
  looked_up : F → String → String → F → ℕ → MemoryCall F
  invalidated : String → String → MemoryCall F

-- No call stores a case of the fingerprint.
abbrev NotStored : {F : Type 0} → String → List (MemoryCall F) → Type 0
NotStored fp [] = Unit
NotStored fp (stored now ttl case ∷ calls) = (case.fingerprint ≢ fp) × NotStored fp calls
NotStored fp (looked_up _ _ _ _ _ ∷ calls) = NotStored fp calls
NotStored fp (invalidated _ _ ∷ calls) = NotStored fp calls

-- Every match that the sort returns is one of those it was given.
pub record IsSort {F : Type 0} (sorted : List (Match F) → List (Match F)) : Type 0 where
  pub all-sorted :
      (p : Match F → Bool) (ms : List (Match F)) → all p ms ≡ true → all p (sorted ms) ≡ true

module _ {F : Type 0} ⦃o : Float F⦄ (ratio : String → String → F)
    (sorted : List (Match F) → List (Match F)) (limits : Limits) where
  unfoldable pub cases_after : List (MemoryCall F) → List (MemoryCase F) → List (MemoryCase F)
  cases_after [] cases = cases
  cases_after (stored now ttl case ∷ calls) cases =
      cases_after calls (store_case limits now ttl case cases)
  cases_after (looked_up now fp material least limit ∷ calls) cases =
      cases_after calls (lookup_cases ratio sorted limits now fp material least limit cases).1
  cases_after (invalidated fp reason ∷ calls) cases = cases_after calls (invalidate fp reason cases)

  -- The case is not of the fingerprint, or it is invalidated.
  abbrev is_out : String → MemoryCase F → Bool
  is_out fp case = not (str_eq case.fingerprint fp) || case.invalidated

  invalidate_out :
      (fp reason : String) (cases : List (MemoryCase F))
      → all (is_out fp) (invalidate fp reason cases) ≡ true
  unfolding invalidate
  invalidate_out fp reason [] = refl
  invalidate_out fp reason (case ∷ cases) = ground (arith, invalidate_out fp reason cases)

  invalidate_keeps :
      (fp other reason : String) (cases : List (MemoryCase F))
      → all (is_out fp) cases ≡ true
      → all (is_out fp) (invalidate other reason cases) ≡ true
  unfolding invalidate
  invalidate_keeps fp other reason [] h = refl
  invalidate_keeps fp other reason (case ∷ cases) h =
      ground (arith, invalidate_keeps fp other reason cases)

  active_out :
      (fp : String) (now : F) (cases : List (MemoryCase F))
      → all (is_out fp) cases ≡ true
      → all (λ case. is_out fp case && is_active now case) (active_cases limits now cases) ≡ true
  unfolding active_cases
  active_out fp now cases h =
      all-drop (λ case. is_out fp case && is_active now case) _ (filter (is_active now) cases)
        (all-filter_both (is_out fp) (is_active now) cases h)

  all_left :
      {A : Type 0} (p q : A → Bool) (xs : List A)
      → all (λ x. p x && q x) xs ≡ true
      → all p xs ≡ true
  all_left p q [] h = refl
  all_left p q (x ∷ xs) h = ground (arith, all_left p q xs)

  after_out :
      (fp : String) (calls : List (MemoryCall F)) (cases : List (MemoryCase F))
      → NotStored fp calls
      → all (is_out fp) cases ≡ true
      → all (is_out fp) (cases_after calls cases) ≡ true
  unfolding cases_after store_case lookup_cases
  after_out fp [] cases free h = h
  after_out fp (stored now ttl case ∷ calls) cases (apart, free) h =
      after_out fp calls (store_case limits now ttl case cases) free (
        all-drop (is_out fp) _ _
          (all-append (is_out fp) cases _ h (ground (arith, str_eq_iff case.fingerprint fp))))
  after_out fp (looked_up now other material least limit ∷ calls) cases free h =
      after_out fp calls (active_cases limits now cases) free (
        all_left (is_out fp) (is_active now) (active_cases limits now cases)
          (active_out fp now cases h))
  after_out fp (invalidated other reason ∷ calls) cases free h =
      after_out fp calls (invalidate other reason cases) free
        (invalidate_keeps fp other reason cases h)

module _ {F : Type 0} ⦃o : Float F⦄ where
  matched-decide_best :
      (best : Match F) (novelty criticality : F) (policy signature : String)
      → (decide_best best novelty criticality policy signature).matched_case ≡ some best.case
  unfolding decide_best
  matched-decide_best best novelty criticality policy signature = ground arith

  matched-decide :
      (p : MemoryCase F → Bool) (matches : List (Match F)) (novelty criticality : F)
      (policy signature : String) (flags : Dict Bool) (case : MemoryCase F)
      → all (λ m. p m.case) matches ≡ true
      → (decide matches novelty criticality policy signature flags).matched_case ≡ some case
      → (p case ≡ true) × (is_critical flags ≡ false)
  unfolding decide
  matched-decide p [] novelty criticality policy signature flags case h matched =
      elim (Bool-cases (is_critical flags)) [
        | inl critical ↦ absurd (none-ne-some {a = case} (ground arith))
        | inr calm ↦ absurd (none-ne-some {a = case} (ground arith))
      ]
  matched-decide p (best ∷ rest) novelty criticality policy signature flags case h matched =
      elim (Bool-cases (is_critical flags)) [
        | inl critical ↦ absurd (none-ne-some {a = case} (ground arith))
        | inr calm ↦
            let same : best.case ≡ case =
              ground (arith, matched-decide_best best novelty criticality policy signature) in
            (subst (λ x. p x ≡ true) same (ground arith), calm)
      ]

module _ {F : Type 0} ⦃o : Float F⦄ (ratio : String → String → F)
    (sorted : List (Match F) → List (Match F)) (sort : IsSort sorted) (limits : Limits) where
  -- Given that the sort returns only what it is given: once a fingerprint is invalidated, and as
  -- long as no case of it is stored again, no reuse decision on a lookup matches a case of it,
  -- whatever calls come between, whatever fingerprint is looked up and at every time; and a case
  -- that a decision does match is neither invalidated nor expired, and no critical flag is set.
  pub invalidated_not_reused :
      (earlier later : List (MemoryCall F)) (fp reason : String) (now : F)
      (looked_for material : String) (least : F) (limit : ℕ) (novelty criticality : F)
      (policy signature : String) (flags : Dict Bool) (case : MemoryCase F)
      → NotStored fp later
      → let kept =
          cases_after ratio sorted limits later
            (invalidate fp reason (cases_after ratio sorted limits earlier [])) in
        (decide
            (lookup_cases ratio sorted limits now looked_for material least limit kept).0
            novelty
            criticality
            policy
            signature
            flags).matched_case
          ≡ some case
        → (case.fingerprint ≢ fp)
          × (case.invalidated ≡ false)
          × (is_expired now case ≡ false)
          × (is_critical flags ≡ false)
  unfolding lookup_cases
  invalidated_not_reused earlier later fp reason now looked_for material least limit novelty
        criticality policy signature flags case free matched =
      let kept =
        cases_after ratio sorted limits later
          (invalidate fp reason (cases_after ratio sorted limits earlier [])) in
      let is_kept : MemoryCase F → Bool = λ x. is_out ratio sorted limits fp x && is_active now x in
      let out =
        after_out ratio sorted limits fp later
          (invalidate fp reason (cases_after ratio sorted limits earlier [])) free
          (invalidate_out ratio sorted limits fp reason
            (cases_after ratio sorted limits earlier [])) in
      let active = active_cases limits now kept in
      let matches = map (match_of ratio sorted looked_for material) active in
      let near = filter (λ m. not (o.lt m.similarity least)) matches in
      let all_kept =
        all-take (λ m. is_kept m.case) limit (sorted near)
          (sort.all-sorted (λ m. is_kept m.case) near
            (all-filter (λ m. is_kept m.case) (λ m. not (o.lt m.similarity least)) matches
              (all-map (λ m. is_kept m.case) (match_of ratio sorted looked_for material) is_kept
                active (λ x. refl) (active_out ratio sorted limits fp now kept out)))) in
      let (kept_case, calm) =
        matched-decide is_kept (take limit (sorted near)) novelty criticality policy signature flags
          case all_kept matched in
      (
        λ e. ground (arith, kept_case, e, str_eq_iff case.fingerprint fp),
        ground (arith, kept_case),
        ground (arith, kept_case),
        calm,
      )
