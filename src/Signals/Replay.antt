-- ===== src/Signals/Replay.antt =====
-- The histories of the accounts, and the counters drawn from them, against the plain list of
-- events.
use c_e.Common.{
  ℕ, suc, ◌+◌, ◌&&◌, String, List, [], ◌∷◌, ◌++◌, ◌≡◌, refl, sym, ap, ◌∙◌, arith, if◌then◌else◌,
  filter, length, map, take_last, str_eq, str_eq_iff, Bool-cases, inl, inr,
}
use mathlib.Core.List.{append_assoc, append-nil}
use c_e.Common.Dict.{Dict, get_or, insert, lookup-insert}
use c_e.Common.Float.{Float}
use c_e.Signals.{ingest, ingest_all}
use c_e.Signals.Admin.{AdminActionEvent, count_up, admin_behavior_profile}
use c_e.Signals.Decay.{InsiderEvent, evaluate, cumulative_trust_decay, signal_of, window_decay}

module _ {E : Type 0} (account : E → String) where
  abbrev events_of : String → List E → List E
  events_of k = filter (λ e. str_eq (account e) k)

  get_or-ingest :
      (e : E) (k : String) (d : Dict (List E))
      → get_or k [] (ingest account e d) ≡ get_or k [] d ++ events_of k (e ∷ [])
  get_or-ingest e k d = elim (Bool-cases (str_eq (account e) k)) [
    | inl same ↦
        let k' = (str_eq_iff (account e) k).0 same in
        ground (
          arith,
          same,
          k',
          ap (λ i. get_or i [] d) k',
          lookup-insert (account e) k (get_or (account e) [] d ++ e ∷ []) d,
        )
    | inr other ↦ ground (
      arith,
      lookup-insert (account e) k (get_or (account e) [] d ++ e ∷ []) d,
      append-nil (get_or k [] d),
    )
  ]

  events_of-cons :
      (k : String) (e : E) (es : List E)
      → events_of k (e ∷ []) ++ events_of k es ≡ events_of k (e ∷ es)
  events_of-cons k e es = ground arith

  -- The history of an account is what it had, followed by its events in their order.
  get_or-ingest_all :
      (es : List E) (k : String) (d : Dict (List E))
      → get_or k [] (ingest_all account es d) ≡ get_or k [] d ++ events_of k es
  unfolding ingest_all
  get_or-ingest_all [] k d = sym (append-nil (get_or k [] d))
  get_or-ingest_all (e ∷ es) k d =
      get_or-ingest_all es k (ingest account e d)
      ∙ ap (λ xs. xs ++ events_of k es) (get_or-ingest e k d)
      ∙ append_assoc (get_or k [] d) (events_of k (e ∷ [])) (events_of k es)
      ∙ ap (λ xs. get_or k [] d ++ xs) (events_of-cons k e es)

-- How often a text stands in a list.
abbrev pub count : String → List String → ℕ
count s [] = 0
count s (t ∷ ts) = if str_eq t s then suc (count s ts) else count s ts

get_or-count_up :
    (s : String) (ts : List String) (d : Dict ℕ)
    → get_or s 0 (count_up ts d) ≡ get_or s 0 d + count s ts
get_or-count_up s [] d = omega arith
get_or-count_up s (t ∷ ts) d = elim (Bool-cases (str_eq t s)) [
  | inl same ↦ ground (
    arith,
    get_or-count_up s ts (insert t (get_or t 0 d + 1) d),
    ap (λ i. get_or i 0 d) ((str_eq_iff t s).0 same),
    lookup-insert t s (get_or t 0 d + 1) d,
  )
  | inr other ↦ ground (
    arith,
    get_or-count_up s ts (insert t (get_or t 0 d + 1) d),
    lookup-insert t s (get_or t 0 d + 1) d,
  )
]

count_up_lem : (s : String) (ts : List String) → get_or s 0 (count_up ts []) ≡ count s ts
count_up_lem s ts = omega (arith, get_or-count_up s ts [])

abbrev admin_of : AdminActionEvent → String
admin_of e = e.admin_id

abbrev pub identity_of : InsiderEvent → String
identity_of e = e.identity_id

count-map :
    (part account : AdminActionEvent → String) (k s : String) (es : List AdminActionEvent)
    → count s (map part (filter (λ e. str_eq (account e) k) es))
      ≡ length (filter (λ e. str_eq (account e) k && str_eq (part e) s) es)
count-map part account k s [] = refl
count-map part account k s (e ∷ es) = ground (arith, count-map part account k s es)

-- What the store has for an administrator after a list of events.
abbrev pub admin_history : List AdminActionEvent → String → List AdminActionEvent
admin_history es k = get_or k [] (ingest_all admin_of es [])

-- After any list of ingested events, the profile of an administrator counts, for every action and
-- every resource family, exactly the ingested events of that administrator with that action or
-- family, and its history size is the number of that administrator's events.
pub profile_counts :
    (es : List AdminActionEvent) (k action family : String)
    → let profile = admin_behavior_profile (admin_history es k) in
      (get_or action 0 profile.action_counts
        ≡ length (filter (λ e. str_eq e.admin_id k && str_eq e.action action) es))
      × (get_or family 0 profile.resource_families
          ≡ length (filter (λ e. str_eq e.admin_id k && str_eq e.resource_family family) es))
      × (profile.history_size ≡ length (filter (λ e. str_eq e.admin_id k) es))
unfolding admin_behavior_profile
profile_counts es k action family =
    let history = get_or-ingest_all admin_of es k [] in
    let counted : (part : AdminActionEvent → String) (s : String)
        → get_or s 0 (count_up (map part (admin_history es k)) [])
          ≡ length (filter (λ e. str_eq e.admin_id k && str_eq (part e) s) es) =
      λ part s.
        count_up_lem s (map part (admin_history es k))
        ∙ ap (λ xs. count s (map part xs)) history
        ∙ count-map part admin_of k s es in
    (counted (λ e. e.action) action, counted (λ e. e.resource_family) family, ap length history)

-- Two lists of ingested events that agree on an identity's last twenty events give it the same
-- signal for the same request: what else was ingested, of it or of others, does not count.
pub evaluate_recent :
    {F : Type 0} ⦃o : Float F⦄ (sum : List F → F) (es fs : List InsiderEvent) (k : String)
    → (events : List InsiderEvent)
    → take_last 20 (events_of identity_of k es) ≡ take_last 20 (events_of identity_of k fs)
    → evaluate sum (ingest_all identity_of es []) k events
      ≡ evaluate sum (ingest_all identity_of fs []) k events
unfolding evaluate cumulative_trust_decay
evaluate_recent sum es fs k events same =
    let recent : (xs : List InsiderEvent)
        → take_last 20 (get_or k [] (ingest_all identity_of xs []))
          ≡ take_last 20 (events_of identity_of k xs) =
      λ xs. ap (take_last 20) (get_or-ingest_all identity_of xs k []) in
    ap (λ window. signal_of sum k events (window_decay (window ++ events)))
      (recent es ∙ same ∙ sym (recent fs))
