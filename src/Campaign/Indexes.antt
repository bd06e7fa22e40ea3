-- ===== src/Campaign/Indexes.antt =====
-- The three indexes of the campaign store against its list of events.
use c_e.Common.{
  Bool, true, false, String, List, [], ◌∷◌, ◌++◌, none, ◌≡◌, refl, sym, ap, ◌∙◌, arith, filter,
  is_empty, str_eq, str_eq_iff, Bool-cases, inl, inr, ◌*◌, subst, str_eq_refl,
}
use c_e.Common.Dict.{Dict, lookup, get_or, insert, lookup-insert}
use c_e.Common.Float.{Float}
use c_e.Campaign.{
  Fingerprint, Store, empty, add_event, fresh, prune_index, store_event_fingerprint, millionths,
}

module _ {A : Type 0} where
  filter-append_kept :
      (p : A → Bool) (xs : List A) (x : A)
      → p x ≡ true
      → filter p (xs ++ x ∷ []) ≡ filter p xs ++ x ∷ []
  filter-append_kept p [] x h = ground arith
  filter-append_kept p (y ∷ xs) x h = ground (arith, filter-append_kept p xs x h)

  filter-append_left :
      (p : A → Bool) (xs : List A) (x : A) → p x ≡ false → filter p (xs ++ x ∷ []) ≡ filter p xs
  filter-append_left p [] x h = ground arith
  filter-append_left p (y ∷ xs) x h = ground (arith, filter-append_left p xs x h)

  is_empty-nil : (xs : List A) → is_empty xs ≡ true → xs ≡ []
  is_empty-nil [] h = refl
  is_empty-nil (x ∷ xs) h = cc

  filter-filter : (p q : A → Bool) (xs : List A) → filter p (filter q xs) ≡ filter q (filter p xs)
  filter-filter p q [] = refl
  filter-filter p q (x ∷ xs) = ground (arith, filter-filter p q xs)

-- No key stands twice.
abbrev Distinct : {V : Type 0} → Dict V → Type 0
Distinct [] = Unit
Distinct ((k, v) ∷ d) = (lookup k d ≡ none) × Distinct d

module _ {V : Type 0} where
  get_or-insert_same : (k : String) (v w : V) (d : Dict V) → get_or k w (insert k v d) ≡ v
  get_or-insert_same k v w d = ground (arith, lookup-insert k k v d, str_eq_refl k)

  get_or-insert_other :
      (k j : String) (v w : V) (d : Dict V)
      → str_eq k j ≡ false
      → get_or j w (insert k v d) ≡ get_or j w d
  get_or-insert_other k j v w d h = ground (arith, lookup-insert k j v d)

  insert-Distinct : (k : String) (v : V) (d : Dict V) → Distinct d → Distinct (insert k v d)
  insert-Distinct k v [] h = (refl, tt)
  insert-Distinct k v ((j, w) ∷ d) (new, h) =
      ground (arith, insert-Distinct k v d h, lookup-insert k j v d, str_eq_iff j k, str_eq_iff k j)

module _ {F : Type 0} ⦃o : Float F⦄ where
  prune_index-none :
      (cutoff : F) (k : String) (d : Dict (List (Fingerprint F)))
      → lookup k d ≡ none
      → lookup k (prune_index cutoff d) ≡ none
  unfolding prune_index
  prune_index-none cutoff k [] h = refl
  prune_index-none cutoff k ((j, es) ∷ d) h = ground (arith, prune_index-none cutoff k d)

  prune_index-Distinct :
      (cutoff : F) (d : Dict (List (Fingerprint F))) → Distinct d → Distinct (prune_index cutoff d)
  unfolding prune_index
  prune_index-Distinct cutoff [] h = tt
  prune_index-Distinct cutoff ((j, es) ∷ d) (new, h) =
      ground (arith, prune_index-Distinct cutoff d h, prune_index-none cutoff j d new)

  get_or-prune_index :
      (cutoff : F) (k : String) (d : Dict (List (Fingerprint F)))
      → Distinct d
      → get_or k [] (prune_index cutoff d) ≡ filter (fresh cutoff) (get_or k [] d)
  unfolding prune_index
  get_or-prune_index cutoff k [] h = refl
  get_or-prune_index cutoff k ((j, es) ∷ d) (new, h) =
      let kept = filter (fresh cutoff) es in
      elim (Bool-cases (str_eq j k)) [
        | inl same ↦
            let none_left =
              prune_index-none cutoff k d
                (subst (λ i. lookup i d ≡ none) ((str_eq_iff j k).0 same) new) in
            ground (arith, none_left, is_empty-nil kept)
        | inr other ↦ ground (arith, get_or-prune_index cutoff k d h)
      ]

  -- The index of a key holds, in order, the events of that key.
  abbrev pub Indexes :
      (Fingerprint F → String) → Dict (List (Fingerprint F)) → List (Fingerprint F) → Type 0
  Indexes key d events = (k : String) → get_or k [] d ≡ filter (λ e. str_eq (key e) k) events

  abbrev IsIndex :
      (Fingerprint F → String) → Dict (List (Fingerprint F)) → List (Fingerprint F) → Type 0
  IsIndex key d events = Distinct d × Indexes key d events

  get_or-add_event :
      (key : Fingerprint F → String) (e : Fingerprint F) (d : Dict (List (Fingerprint F)))
      (events : List (Fingerprint F)) (k : String)
      → Indexes key d events
      → get_or k [] (add_event (key e) e d) ≡ filter (λ x. str_eq (key x) k) (events ++ e ∷ [])
  get_or-add_event key e d events k held =
      let added = get_or (key e) [] d ++ e ∷ [] in
      elim (Bool-cases (str_eq (key e) k)) [
        | inl same ↦
            subst
              (λ i.
                get_or i [] (insert (key e) added d)
                ≡ filter (λ x. str_eq (key x) i) (events ++ e ∷ []))
              ((str_eq_iff (key e) k).0 same)
              (get_or-insert_same (key e) added [] d
                ∙ ap (λ xs. xs ++ e ∷ []) (held (key e))
                ∙ sym (
                    filter-append_kept (λ x. str_eq (key x) (key e)) events e
                      (str_eq_refl (key e))))
        | inr other ↦
            get_or-insert_other (key e) k added [] d other
            ∙ held k
            ∙ sym (filter-append_left (λ x. str_eq (key x) k) events e other)
      ]

  step_IsIndex :
      (key : Fingerprint F → String) (cutoff : F) (e : Fingerprint F)
      (d : Dict (List (Fingerprint F))) (events : List (Fingerprint F))
      → IsIndex key d events
      → IsIndex key
          (prune_index cutoff (add_event (key e) e d))
          (filter (fresh cutoff) (events ++ e ∷ []))
  step_IsIndex key cutoff e d events (apart, held) =
      let added = insert-Distinct (key e) (get_or (key e) [] d ++ e ∷ []) d apart in
      (
        prune_index-Distinct cutoff (add_event (key e) e d) added,
        λ k.
            get_or-prune_index cutoff k (add_event (key e) e d) added
            ∙ ap (filter (fresh cutoff)) (get_or-add_event key e d events k held)
            ∙ filter-filter (fresh cutoff) (λ x. str_eq (key x) k) (events ++ e ∷ []),
      )

pub data StoreCall (F : Type 0) : Type 0 where
  -- An event and the time at which the store is pruned after it.
  stored : F → Fingerprint F → StoreCall F
  clear : StoreCall F

module _ {F : Type 0} ⦃o : Float F⦄ where
  unfoldable pub store_after : List (StoreCall F) → Store F → Store F
  store_after [] s = s
  store_after (stored now e ∷ calls) s = store_after calls (store_event_fingerprint now e s)
  store_after (clear ∷ calls) s = store_after calls empty

  abbrev AllIndexes : Store F → Type 0
  AllIndexes s =
      IsIndex (λ e. e.identity_id) s.by_identity s.events
      × IsIndex (λ e. e.path_id) s.by_path s.events
      × IsIndex (λ e. e.resource_family) s.by_resource_family s.events

  store-AllIndexes :
      (now : F) (e : Fingerprint F) (s : Store F)
      → AllIndexes s
      → AllIndexes (store_event_fingerprint now e s)
  unfolding store_event_fingerprint
  store-AllIndexes now e s (identities, paths, families) =
      let cutoff = o.sub now (o.lit (7_776_000 * millionths)) in
      (
        step_IsIndex (λ x. x.identity_id) cutoff e s.by_identity s.events identities,
        step_IsIndex (λ x. x.path_id) cutoff e s.by_path s.events paths,
        step_IsIndex (λ x. x.resource_family) cutoff e s.by_resource_family s.events families,
      )

  empty-AllIndexes : AllIndexes empty
  empty-AllIndexes = ((tt, λ k. refl), (tt, λ k. refl), (tt, λ k. refl))

  after-AllIndexes :
      (calls : List (StoreCall F)) (s : Store F) → AllIndexes s → AllIndexes (store_after calls s)
  unfolding store_after
  after-AllIndexes [] s h = h
  after-AllIndexes (stored now e ∷ calls) s h =
      after-AllIndexes calls (store_event_fingerprint now e s) (store-AllIndexes now e s h)
  after-AllIndexes (clear ∷ calls) s h = after-AllIndexes calls empty empty-AllIndexes

  -- After any sequence of `store_event_fingerprint` calls, each with its own time of pruning, and
  -- `clear` calls, the events found under an identity, a path or a resource family are exactly the
  -- stored events with that identity, path or family, in the order of the list of all events.
  pub store_after-Indexes :
      (calls : List (StoreCall F))
      → Indexes
          (λ e. e.identity_id)
          (store_after calls empty).by_identity
          (store_after calls empty).events
        × Indexes
            (λ e. e.path_id)
            (store_after calls empty).by_path
            (store_after calls empty).events
        × Indexes
            (λ e. e.resource_family)
            (store_after calls empty).by_resource_family
            (store_after calls empty).events
  store_after-Indexes calls =
      let ((_, identities), (_, paths), (_, families)) =
        after-AllIndexes calls empty empty-AllIndexes in
      (identities, paths, families)
