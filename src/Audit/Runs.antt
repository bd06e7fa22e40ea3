-- ===== src/Audit/Runs.antt =====
-- Sequences of writes to the audit log.
use c_e.Common.{
  ℕ, Bool, true, false, ◌&&◌, String, List, [], ◌∷◌, ◌++◌, map, none, some, ◌≡◌, ◌≢◌, refl, sym, ap,
  ◌∙◌, arith, if◌then◌else◌, any, All, str_eq_iff, str_eq_refl, Bool-cases, inl, inr,
}
use mathlib.Core.List.{append_assoc, append-nil}
use c_e.Common.Float.{Float}
use c_e.Trust.Tokens.{ApiCaller, may_call}
use c_e.Audit.{
  Payload, Filters, Backend, State, found, is_valid, has_id, first_of, row_of, write_event,
  list_events, get_event,
}
use c_e.Audit.Modes.{Rising, IsBackend, row_to_event-row_of, listed_rows, found_row}

abbrev pub Write : Type 0 → Type 0 → Type 0
Write M F = ApiCaller × Payload M F

module _ {M F : Type 0} where
  -- Each write draws an id of its own.
  abbrev pub OwnIds : List (Write M F) → Type 0
  OwnIds [] = Unit
  OwnIds (w ∷ ws) = All (λ v. w.1.event_id ≢ v.1.event_id) ws × OwnIds ws

  -- The writes that the service takes.
  abbrev taken : Write M F → Bool
  taken (c, p) = is_valid p.event && may_call c

  pub accepted : List (Write M F) → List (Payload M F)
  accepted [] = []
  accepted (w ∷ ws) = if taken w then w.1 ∷ accepted ws else accepted ws

  abbrev New : List (Payload M F) → List (Write M F) → Type 0
  New es = All (λ w. any (has_id w.1.event_id) es ≡ false)

  New-nil : (ws : List (Write M F)) → New [] ws
  New-nil [] = tt
  New-nil (w ∷ ws) = (refl, New-nil ws)

  first_last :
      (es : List (Payload M F)) (p : Payload M F)
      → any (has_id p.event_id) es ≡ false
      → first_of p.event_id (es ++ p ∷ []) ≡ some p
  first_last [] p h = ground (arith, str_eq_refl p.event_id)
  first_last (e ∷ es) p h = ground (arith, first_last es p)

  any-append :
      (es : List (Payload M F)) (p : Payload M F) (id : String)
      → any (has_id id) es ≡ false
      → p.event_id ≢ id
      → any (has_id id) (es ++ p ∷ []) ≡ false
  any-append [] p id h k = ground (arith, str_eq_iff p.event_id id)
  any-append (e ∷ es) p id h k = ground (arith, any-append es p id)

  New-append :
      (es : List (Payload M F)) (p : Payload M F) (ws : List (Write M F))
      → New es ws
      → All (λ v. p.event_id ≢ v.1.event_id) ws
      → New (es ++ p ∷ []) ws
  New-append es p [] h k = tt
  New-append es p (w ∷ ws) (h, hs) (k, ks) =
      (any-append es p w.1.event_id h k, New-append es p ws hs ks)

module _ {M F : Type 0} ⦃b : Backend M F⦄ where
  unfoldable pub write_all : List (Write M F) → State M F → State M F
  write_all [] s = s
  write_all (w ∷ ws) s = write_all ws (write_event w.0 w.1 s).1

  -- The log in memory, and in a database whose table is new.
  abbrev pub memory : List (Payload M F) → State M F
  memory es = record { events = es; table = none }

  abbrev pub database : List (Payload M F) → State M F
  database es = record { events = []; table = some (map row_of es) }

  any-rows :
      (id : String) (es : List (Payload M F)) → any (has_id id) (map row_of es) ≡ any (has_id id) es
  any-rows id [] = refl
  any-rows id (e ∷ es) = ground (arith, any-rows id es)

  rows-append :
      (es : List (Payload M F)) (p : Payload M F)
      → map row_of (es ++ p ∷ []) ≡ map row_of es ++ row_of p ∷ []
  rows-append [] p = refl
  rows-append (e ∷ es) p = ap (λ rows. row_of e ∷ rows) (rows-append es p)

  write_memory :
      (w : Write M F) (es : List (Payload M F))
      → (write_event w.0 w.1 (memory es)).1 ≡ memory (if taken w then es ++ w.1 ∷ [] else es)
  unfolding write_event
  write_memory (c, p) es = ground arith

  write_database :
      (w : Write M F) (es : List (Payload M F))
      → any (has_id w.1.event_id) es ≡ false
      → (write_event w.0 w.1 (database es)).1 ≡ database (if taken w then es ++ w.1 ∷ [] else es)
  unfolding write_event
  write_database (c, p) es new = ground (arith, any-rows p.event_id es, rows-append es p)

  writes_memory :
      (ws : List (Write M F)) (es : List (Payload M F))
      → write_all ws (memory es) ≡ memory (es ++ accepted ws)
  unfolding write_all accepted
  writes_memory [] es = ap memory (sym (append-nil es))
  writes_memory (w ∷ ws) es = elim (Bool-cases (taken w)) [
    | inl yes' ↦
        rw (write_memory w es, yes')
          (writes_memory ws (es ++ w.1 ∷ []) ∙ ap memory (append_assoc es (w.1 ∷ []) (accepted ws)))
    | inr no' ↦ rw (write_memory w es, no') (writes_memory ws es)
  ]

  writes_database :
      (ws : List (Write M F)) (es : List (Payload M F))
      → OwnIds ws
      → New es ws
      → write_all ws (database es) ≡ database (es ++ accepted ws)
  unfolding write_all accepted
  writes_database [] es own new = ap database (sym (append-nil es))
  writes_database (w ∷ ws) es (apart, own) (h, hs) = elim (Bool-cases (taken w)) [
    | inl yes' ↦
        rw (write_database w es h, yes')
          (writes_database ws (es ++ w.1 ∷ []) own (New-append es w.1 ws hs apart)
            ∙ ap database (append_assoc es (w.1 ∷ []) (accepted ws)))
    | inr no' ↦ rw (write_database w es h, no') (writes_database ws es own hs)
  ]

module _ {M F : Type 0} ⦃o : Float F⦄ where
  accepted-later :
      (p : Payload M F) (ws : List (Write M F))
      → All (λ q. o.lt p.timestamp q.timestamp ≡ true) (map (λ w. w.1) ws)
      → All (λ q. o.lt p.timestamp q.timestamp ≡ true) (accepted ws)
  unfolding accepted
  accepted-later p [] h = tt
  accepted-later p (w ∷ ws) (h, hs) = ground (arith, accepted-later p ws hs)

  accepted-Rising : (ws : List (Write M F)) → Rising (map (λ w. w.1) ws) → Rising (accepted ws)
  unfolding accepted
  accepted-Rising [] h = tt
  accepted-Rising (w ∷ ws) (h, hs) =
      ground (arith, accepted-Rising ws hs, accepted-later (w.1) ws h)

module _ {M F : Type 0} ⦃o : Float F⦄ ⦃b : Backend M F⦄ (laws : IsBackend b) where
  list_alike :
      (es : List (Payload M F)) (c : ApiCaller) (limit : ℕ) (q : Filters)
      → Rising es
      → list_events c limit q (memory es) ≡ list_events c limit q (database es)
  unfolding list_events
  list_alike es c limit q rising = ground (arith, listed_rows laws q limit es rising)

  found_last :
      (es : List (Payload M F)) (d : ApiCaller) (p : Payload M F)
      → may_call d ≡ true
      → any (has_id p.event_id) es ≡ false
      → get_event d p.event_id (memory (es ++ p ∷ [])) ≡ found p
  unfolding get_event
  found_last es d p may new = ground (arith, first_last es p new)

  get_alike :
      (es : List (Payload M F)) (c : ApiCaller) (id : String)
      → get_event c id (memory es) ≡ get_event c id (database es)
  unfolding get_event
  get_alike es c id = elim (found_row laws id es) [
    | inl (absent, no_row) ↦ ground arith
    | inr (p, there, row) ↦ ground (arith, row_to_event-row_of laws p)
  ]

  -- Given that JSON reads back the metadata that it wrote, and that the database gives the rows
  -- that satisfy every clause of a query, the newest first and at most so many as the limit: after
  -- the same sequence of `write_event` calls on an empty log, each with an id of its own and at
  -- times that rise, `list_events` with every limit and filters and `get_event` with every id
  -- answer every caller alike, whether the log is in memory or in the database.
  pub modes_agree :
      (ws : List (Write M F)) (c : ApiCaller) (limit : ℕ) (q : Filters) (id : String)
      → OwnIds ws
      → Rising (map (λ w. w.1) ws)
      → (list_events c limit q (write_all ws (memory []))
          ≡ list_events c limit q (write_all ws (database [])))
        × (get_event c id (write_all ws (memory [])) ≡ get_event c id (write_all ws (database [])))
  modes_agree ws c limit q id own rising =
      rw (writes_memory ws [], writes_database ws [] own (New-nil ws))
        (
          list_alike (accepted ws) c limit q (accepted-Rising ws rising),
          get_alike (accepted ws) c id,
        )

  -- Given that JSON reads back the metadata that it wrote: a valid event that an authorized caller
  -- writes to a log in memory or in the database, with an id that no event of the log has, is what
  -- `get_event` answers for its id.
  pub get_event-write_event :
      (es : List (Payload M F)) (c d : ApiCaller) (p : Payload M F)
      → may_call c ≡ true
      → may_call d ≡ true
      → is_valid p.event ≡ true
      → any (has_id p.event_id) es ≡ false
      → (get_event d p.event_id (write_event c p (memory es)).1 ≡ found p)
        × (get_event d p.event_id (write_event c p (database es)).1 ≡ found p)
  get_event-write_event es c d p may may' valid new =
      let stored = es ++ p ∷ [] in
      let in_memory = found_last es d p may' new in
      rw (write_memory (c, p) es, write_database (c, p) es new, valid, may)
        (in_memory, sym (get_alike stored d p.event_id) ∙ in_memory)
