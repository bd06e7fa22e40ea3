-- ===== src/Audit/Clauses.antt =====
-- What the placeholders of an audit query stand for.
use c_e.Common.{
  ℕ, zero, suc, ◌≤◌, Bool, true, false, not, ◌&&◌, String, List, [], ◌∷◌, ◌++◌, Option, none, some,
  ◌≡◌, refl, sym, ap, ◌∙◌, arith, if◌then◌else◌, length, length-append, filter, all, All, str_eq,
  Bool-cases, inl, inr,
}
use c_e.Audit.{
  AuditEvent, Payload, Param, text, number, Filters, place, query_of, filtered, keep_if,
}

-- The value of `$n`; the first is `$1`.
abbrev pub value_at : List Param → ℕ → Option Param
value_at [] n = none
value_at (p ∷ ps) zero = none
value_at (p ∷ ps) (suc zero) = some p
value_at (p ∷ ps) (suc (suc n)) = value_at ps (suc n)

abbrev is_text : String → Option Param → Bool
is_text s (some (text t)) = str_eq s t
is_text s _ = false

-- The columns that the filters name.
abbrev column : {M F : Type 0} → String → Payload M F → String
column name p =
    if str_eq name "principal_id"
    then p.event.principal_id
    else if str_eq name "event_type"
    then p.event.event_type
    else if str_eq name "decision"
    then p.event.decision
    else if str_eq name "correlation_id"
    then p.event.correlation_id
    else p.event.action_class

-- A row satisfies `column = $n`.
abbrev pub satisfies : {M F : Type 0} → List Param → Payload M F → String × ℕ → Bool
satisfies params p (name, n) = is_text (column name p) (value_at params n)

value_at-append :
    (ps qs : List Param) (n : ℕ) → n ≤ length ps → value_at (ps ++ qs) n ≡ value_at ps n
value_at-append [] [] zero h = refl
value_at-append [] (q ∷ qs) zero h = refl
value_at-append [] qs (suc n) h = absurd (omega arith)
value_at-append (p ∷ ps) qs zero h = refl
value_at-append (p ∷ ps) qs (suc zero) h = refl
value_at-append (p ∷ ps) qs (suc (suc n)) h = value_at-append ps qs (suc n) (omega arith)

pub value_at_last :
    (ps : List Param) (p : Param) → value_at (ps ++ p ∷ []) (suc (length ps)) ≡ some p
value_at_last [] p = refl
value_at_last (q ∷ ps) p = value_at_last ps p

abbrev Placed : List Param → List (String × ℕ) → Type 0
Placed params = All (λ clause. clause.1 ≤ length params)

module _ {M F : Type 0} (p : Payload M F) where
  satisfied-append :
      (ps qs : List Param) (cs : List (String × ℕ))
      → Placed ps cs
      → all (satisfies (ps ++ qs) p) cs ≡ all (satisfies ps p) cs
  satisfied-append ps qs [] h = refl
  satisfied-append ps qs ((name, n) ∷ cs) (h, hs) =
      ground (arith, satisfied-append ps qs cs hs, value_at-append ps qs n h)

  -- Whether the payload passes one filter of a request.
  abbrev passes_one : String → Option String → Bool
  passes_one name none = true
  passes_one name (some s) = if not (str_eq s "") then str_eq (column name p) s else true

  all-append :
      (test : String × ℕ → Bool) (cs : List (String × ℕ)) (c : String × ℕ)
      → all test (cs ++ c ∷ []) ≡ (all test cs && test c)
  all-append test [] c = ground arith
  all-append test (d ∷ cs) c = ground (arith, all-append test cs c)

  Placed-append :
      (ps : List Param) (q : Param) (cs : List (String × ℕ)) (name : String)
      → Placed ps cs
      → Placed (ps ++ q ∷ []) (cs ++ (name, suc (length ps)) ∷ [])
  Placed-append ps q [] name h = (omega (arith, length-append ps (q ∷ [])), tt)
  Placed-append ps q (c ∷ cs) name (h, hs) =
      (omega (arith, length-append ps (q ∷ [])), Placed-append ps q cs name hs)

  -- The clauses so far stand for a test of the payload.
  abbrev StandsFor : Bool → List (String × ℕ) × List Param → Type 0
  StandsFor test (cs, ps) = Placed ps cs × (all (satisfies ps p) cs ≡ test)

  place-StandsFor :
      (name : String) (v : Option String) (test : Bool) (acc : List (String × ℕ) × List Param)
      → StandsFor test acc
      → StandsFor (test && passes_one name v) (place name v acc)
  place-StandsFor name none test acc (h, e) = ground arith
  place-StandsFor name (some s) test (cs, ps) (h, e) = elim (Bool-cases (str_eq s "")) [
    | inl blank ↦ ground arith
    | inr given ↦ ground (
      arith,
      Placed-append ps (text s) cs name h,
      satisfied-append ps (text s ∷ []) cs h,
      all-append (satisfies (ps ++ text s ∷ []) p) cs (name, suc (length ps)),
      value_at_last ps (text s),
    )
  ]

  abbrev pub passes : Filters → Bool
  passes q =
      true
      && passes_one "principal_id" q.principal_id
      && passes_one "event_type" q.event_type
      && passes_one "decision" q.decision
      && passes_one "correlation_id" q.correlation_id
      && passes_one "action_class" q.action_class

  -- The clauses of a query, with the values of their placeholders, test what the filters ask.
  pub satisfies_query :
      (q : Filters) (limit : ℕ)
      → all (satisfies (query_of q limit).params p) (query_of q limit).clauses ≡ passes q
  unfolding query_of
  satisfies_query q limit =
      let first = place "principal_id" q.principal_id ([], []) in
      let second = place "event_type" q.event_type first in
      let third = place "decision" q.decision second in
      let fourth = place "correlation_id" q.correlation_id third in
      let (placed, test) = place-StandsFor "action_class" q.action_class _ fourth (
        place-StandsFor "correlation_id" q.correlation_id _ third (
          place-StandsFor "decision" q.decision _ second (
            place-StandsFor "event_type" q.event_type _ first
              (place-StandsFor "principal_id" q.principal_id true ([], []) (tt, refl))))) in
      let final = place "action_class" q.action_class fourth in
      satisfied-append final.1 (number limit ∷ []) final.0 placed ∙ test

module _ {A : Type 0} where
  filter-filter :
      (p q : A → Bool) (xs : List A) → filter p (filter q xs) ≡ filter (λ x. q x && p x) xs
  filter-filter p q [] = refl
  filter-filter p q (x ∷ xs) = ground (arith, filter-filter p q xs)

  filter-same : (p q : A → Bool) (xs : List A) → ((x : A) → p x ≡ q x) → filter p xs ≡ filter q xs
  filter-same p q [] h = refl
  filter-same p q (x ∷ xs) h = ground (arith, h x, filter-same p q xs h)

  filter_all : (xs : List A) → filter (λ x. true) xs ≡ xs
  filter_all [] = refl
  filter_all (x ∷ xs) = ap (λ ys. x ∷ ys) (filter_all xs)

module _ {M F : Type 0} where
  keep_if_lem :
      (name : String) (v : Option String) (part : AuditEvent M → String) (test : Payload M F → Bool)
      (es : List (Payload M F))
      → ((p : Payload M F) → column name p ≡ part p.event)
      → keep_if v part (filter test es) ≡ filter (λ p. test p && passes_one p name v) es
  keep_if_lem name none part test es same =
      filter-same test (λ p. test p && true) es (λ p. ground arith)
  keep_if_lem name (some s) part test es same = elim (Bool-cases (str_eq s "")) [
    | inl blank ↦
        ground (
          arith,
          filter-same test (λ p. test p && passes_one p name (some s)) es (λ p. ground arith),
        )
    | inr given ↦ ground (
      arith,
      filter-filter (λ p. str_eq (part p.event) s) test es,
      filter-same (λ p. test p && str_eq (part p.event) s)
          (λ p. test p && passes_one p name (some s)) es (λ p. ground (arith, same p)),
    )
  ]

  -- The five loops in memory keep what passes the filters.
  pub filtered_lem :
      (q : Filters) (es : List (Payload M F)) → filtered q es ≡ filter (λ p. passes p q) es
  unfolding filtered
  filtered_lem q es =
      let one =
        ap (keep_if q.principal_id (λ e. e.principal_id)) (sym (filter_all es))
        ∙ keep_if_lem "principal_id" q.principal_id (λ e. e.principal_id) (λ p. true) es
            (λ p. refl) in
      let two =
        ap (keep_if q.event_type (λ e. e.event_type)) one
        ∙ keep_if_lem "event_type" q.event_type (λ e. e.event_type) _ es (λ p. refl) in
      let three =
        ap (keep_if q.decision (λ e. e.decision)) two
        ∙ keep_if_lem "decision" q.decision (λ e. e.decision) _ es (λ p. refl) in
      let four =
        ap (keep_if q.correlation_id (λ e. e.correlation_id)) three
        ∙ keep_if_lem "correlation_id" q.correlation_id (λ e. e.correlation_id) _ es (λ p. refl) in
      ap (keep_if q.action_class (λ e. e.action_class)) four
      ∙ keep_if_lem "action_class" q.action_class (λ e. e.action_class) _ es (λ p. refl)
