-- ===== src/Audit/Modes.antt =====
-- The log in memory and the log in a database answer alike.
use c_e.Common.{
  ℕ, zero, suc, Bool, true, String, List, [], ◌∷◌, map, none, some, ◌≡◌, refl, sym, ap, ◌∙◌, arith,
  take, filter, all, All, Bool-cases, inl, inr, ◌⊎◌,
}
use c_e.Common.Float.{Float}
use c_e.Audit.{
  Payload, Row, number, Query, Filters, Backend, reverse_onto, reversed, filtered, placed, query_of,
  has_id, first_of, row_to_event, row_of,
}
use c_e.Audit.Clauses.{value_at, value_at_last, satisfies, passes, satisfies_query, filtered_lem}

module _ {M F : Type 0} ⦃o : Float F⦄ where
  -- The times rise along the list.
  abbrev pub Rising : List (Payload M F) → Type 0
  Rising [] = Unit
  Rising (p ∷ ps) = All (λ q. o.lt p.timestamp q.timestamp ≡ true) ps × Rising ps

-- What the service relies on: JSON reads back the metadata that it wrote, and the database gives
-- the rows that satisfy every clause, the newest first and at most so many as the limit. Rows whose
-- times rise are reversed by that order.
pub record IsBackend {M F : Type 0} ⦃o : Float F⦄ (b : Backend M F) : Type 0 where
  pub loads-dumps : (m : M) → b.loads (b.dumps m) ≡ m
  pub by_time_descending : List (Row F) → List (Row F)
  pub by_time_descending-Rising :
      (rows : List (Row F)) → Rising rows → by_time_descending rows ≡ reversed rows
  pub fetch_lem :
      (q : Query) (rows : List (Row F)) (limit : ℕ)
      → value_at q.params q.limit_at ≡ some (number limit)
      → b.fetch q rows
        ≡ take limit (by_time_descending (filter (λ r. all (satisfies q.params r) q.clauses) rows))

module _ {A B : Type 0} (f : A → B) where
  map-take : (n : ℕ) (xs : List A) → map f (take n xs) ≡ take n (map f xs)
  map-take zero xs = refl
  map-take (suc n) [] = refl
  map-take (suc n) (x ∷ xs) = ap (λ ys. f x ∷ ys) (map-take n xs)

  map-reverse_onto :
      (xs ys : List A) → map f (reverse_onto xs ys) ≡ reverse_onto (map f xs) (map f ys)
  map-reverse_onto [] ys = refl
  map-reverse_onto (x ∷ xs) ys = map-reverse_onto xs (x ∷ ys)

  map_back : (g : B → A) (xs : List A) → ((x : A) → g (f x) ≡ x) → map g (map f xs) ≡ xs
  map_back g [] h = refl
  map_back g (x ∷ xs) h = ground (arith, h x, map_back g xs h)

  filter-map :
      (p : A → Bool) (q : B → Bool) (xs : List A)
      → ((x : A) → q (f x) ≡ p x)
      → filter q (map f xs) ≡ map f (filter p xs)
  filter-map p q [] h = refl
  filter-map p q (x ∷ xs) h = ground (arith, h x, filter-map p q xs h)

module _ {M F : Type 0} ⦃o : Float F⦄ where
  filter-later :
      (test : Payload M F → Bool) (p : Payload M F) (ps : List (Payload M F))
      → All (λ q. o.lt p.timestamp q.timestamp ≡ true) ps
      → All (λ q. o.lt p.timestamp q.timestamp ≡ true) (filter test ps)
  filter-later test p [] h = tt
  filter-later test p (q ∷ ps) (h, hs) = ground (arith, filter-later test p ps hs)

  filter-Rising :
      (test : Payload M F → Bool) (ps : List (Payload M F)) → Rising ps → Rising (filter test ps)
  filter-Rising test [] h = tt
  filter-Rising test (p ∷ ps) (h, hs) =
      ground (arith, filter-Rising test ps hs, filter-later test p ps h)

module _ {M F : Type 0} ⦃o : Float F⦄ ⦃b : Backend M F⦄ (laws : IsBackend b) where
  open laws use {loads-dumps, by_time_descending, by_time_descending-Rising, fetch_lem}

  -- A row is read back as the event that was written to it.
  pub row_to_event-row_of : (p : Payload M F) → row_to_event (row_of p) ≡ p
  unfolding row_to_event
  row_to_event-row_of p =
      ap (λ m. record p { event = record (p.event) { metadata = m } })
        (loads-dumps p.event.metadata)

  rows-later :
      (p : Payload M F) (ps : List (Payload M F))
      → All (λ q. o.lt p.timestamp q.timestamp ≡ true) ps
      → All (λ q. o.lt p.timestamp q.timestamp ≡ true) (map row_of ps)
  rows-later p [] h = tt
  rows-later p (q ∷ ps) (h, hs) = (h, rows-later p ps hs)

  rows-Rising : (ps : List (Payload M F)) → Rising ps → Rising (map row_of ps)
  rows-Rising [] h = tt
  rows-Rising (p ∷ ps) (h, hs) = (rows-later p ps h, rows-Rising ps hs)

  limit_lem :
      (q : Filters) (limit : ℕ)
      → value_at (query_of q limit).params (query_of q limit).limit_at ≡ some (number limit)
  unfolding query_of
  limit_lem q limit = value_at_last (placed q).1 (number limit)

  row_passes : (p : Payload M F) (q : Filters) → passes (row_of p) q ≡ passes p q
  row_passes p q = refl

  pub listed_rows :
      (q : Filters) (limit : ℕ) (es : List (Payload M F))
      → Rising es
      → map row_to_event (b.fetch (query_of q limit) (map row_of es))
        ≡ take limit (reversed (filtered q es))
  listed_rows q limit es rising =
      let kept = filter (λ p. passes p q) es in
      let limit_placed : value_at (query_of q limit).params (query_of q limit).limit_at
          ≡ some (number limit) =
        limit_lem q limit in
      let chosen =
        filter-map row_of (λ p. passes p q)
          (λ r. all (satisfies (query_of q limit).params r) (query_of q limit).clauses) es
          (λ p. satisfies_query (row_of p) q limit ∙ row_passes p q) in
      let ordered =
        by_time_descending-Rising (map row_of kept)
          (rows-Rising kept (filter-Rising (λ p. passes p q) es rising)) in
      ap (map row_to_event) (
        fetch_lem (query_of q limit) (map row_of es) limit limit_placed
        ∙ ap (λ rows. take limit (by_time_descending rows)) chosen
        ∙ ap (take limit) (ordered ∙ sym (map-reverse_onto row_of kept []))
        ∙ sym (map-take row_of limit (reversed kept)))
      ∙ map_back row_of row_to_event (take limit (reversed kept)) row_to_event-row_of
      ∙ sym (ap (λ xs. take limit (reversed xs)) (filtered_lem q es))

  -- Where an event is found, its row is.
  pub found_row :
      (id : String) (es : List (Payload M F))
      → ((first_of id es ≡ none) × (first_of id (map row_of es) ≡ none))
        ⊎ ((p : Payload M F) × (first_of id es ≡ some p)
            × (first_of id (map row_of es) ≡ some (row_of p)))
  found_row id [] = inl (refl, refl)
  found_row id (p ∷ es) = elim (Bool-cases (has_id id p)) [
    | inl same ↦ inr (p, ground arith, ground arith)
    | inr other ↦ elim (found_row id es) [
      | inl (absent, no_row) ↦ inl (ground arith, ground arith)
      | inr (q, there, row) ↦ inr (q, ground arith, ground arith)
    ]
  ]
