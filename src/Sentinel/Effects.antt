-- ===== src/Sentinel/Effects.antt =====
-- The effects of one `_act`, and what every cycle sends besides.
use c_e.Common.{
  ℕ, ◌≤◌, Bool, true, false, String, List, [], ◌∷◌, ◌++◌, Option, none, some, ◌≡◌, refl, ◌∙◌, ap,
  arith, ◌⊎◌, any, map, leb→le, Bool-cases, length, if◌then◌else◌, inl, inr,
}
use c_e.Common.Dict.{get_or}
use c_e.Common.Float.{Float}
use c_e.Core.Contracts.{DependencyHealthSnapshot}
use c_e.Core.Degraded.{block_irreversible_actions}
use c_e.Sentinel.Engine.{
  EntityState, CollectedEvent, Action, transition_to, recommend_action, compute_score, score_delta,
  impact_of, context_multipliers, stops_hard, check_multi_source, strong_sources,
}
use c_e.Sentinel.Handlers.{
  MetaDecision, Effect, Draw, act_issue_sot, act, adjusted, watched, rescored, observed,
  trust_update, meta_decided, local_isolation, remediation, sot_issued, meta_effects,
}

-- The effects that cut the entity off the network, that prepare an irreversible containment, that
-- issue a token, and that are more than a report.
abbrev pub isolates : {F : Type 0} → Effect F → Bool
isolates local_isolation = true
isolates _ = false

abbrev pub prepares_irreversible : {F : Type 0} → Effect F → Bool
prepares_irreversible (remediation Action.prepare_irreversible_containment _ _ _ _ _) = true
prepares_irreversible _ = false

abbrev pub issues_token : {F : Type 0} → Effect F → Bool
issues_token (sot_issued _) = true
issues_token _ = false

abbrev pub intervenes : {F : Type 0} → Effect F → Bool
intervenes (observed _) = false
intervenes (trust_update _ _ _ _ _) = false
intervenes (meta_decided _) = false
intervenes _ = true

pub any-skip :
    {A : Type 0} (p : A → Bool) (xs ys : List A) → any p xs ≡ false → any p (xs ++ ys) ≡ any p ys
any-skip p [] ys h = refl
any-skip p (x ∷ xs) ys h = ground (arith, any-skip p xs ys)

pub cons-skip :
    {A : Type 0} (p : A → Bool) (x : A) (ys : List A) → p x ≡ false → any p (x ∷ ys) ≡ any p ys
cons-skip p x ys h = ground arith

-- One of the two actions that `_act` does nothing for, though they are not "none".
abbrev pub IsInert : Action → Type 0
IsInert x = (x ≡ Action.alert_human_only) ⊎ (x ≡ Action.immediate_quarantine)

module _ {F : Type 0} ⦃o : Float F⦄ where
  -- The effect is no message that every cycle sends.
  abbrev pub OfAct : (Effect F → Bool) → Type 0
  OfAct p =
      ((e : CollectedEvent F) → p (observed e) ≡ false)
      × ((a b : F) (x : Action) (h : Option String) (es : List (CollectedEvent F))
          → p (trust_update a b x h es) ≡ false)
      × ((m : MetaDecision F) → p (meta_decided m) ≡ false)

  pub any-observed :
      (p : Effect F → Bool)
      → OfAct p
      → (es : List (CollectedEvent F)) → any p (map observed es) ≡ false
  any-observed p h [] = refl
  any-observed p h (e ∷ es) = ground (arith, h.0 e, any-observed p h es)

  pub any-meta :
      (p : Effect F → Bool)
      → OfAct p
      → (m : Option (MetaDecision F)) → any p (meta_effects m) ≡ false
  any-meta p h none = refl
  any-meta p h (some m) = ground (arith, h.2 m)

  pub compute-IsInert :
      (clock : ℕ → F) (s : EntityState F) (es : List (CollectedEvent F)) (context : String)
      → s.is_protected ≡ true
      → IsInert (compute_score clock s es context).1
  unfolding compute_score recommend_action
  compute-IsInert clock s es context h = ground arith

  pub adjusted-IsInert :
      (s : EntityState F) (m : Option (MetaDecision F)) (score : F) (x : Action)
      → s.is_protected ≡ true
      → IsInert x
      → IsInert (adjusted s m (score, x)).1
  unfolding adjusted recommend_action
  adjusted-IsInert s none score x h i = i
  adjusted-IsInert s (some m) score x h i = ground arith

  pub act-inert :
      (deps : DependencyHealthSnapshot) (draw : Draw F) (x : Action) (es : List (CollectedEvent F))
      → (signal : Option String) (s : EntityState F) → IsInert x
      → act deps draw x es signal s ≡ (s, [])
  unfolding act
  act-inert deps draw x es signal s i = ground arith

  pub watched-keeps :
      (s : EntityState F)
      → ((watched s).is_protected ≡ s.is_protected) × ((watched s).active_sot_id ≡ s.active_sot_id)
  unfolding watched transition_to
  watched-keeps s = ground arith

  score_delta-stops :
      (clock : ℕ → F) (m delta : F) (es : List (CollectedEvent F))
      → any stops_hard es ≡ true
      → (x : String) × ((score_delta clock m delta es).1 ≡ some x)
  unfolding score_delta
  score_delta-stops clock m delta [] h = absurd (ground arith)
  score_delta-stops clock m delta (e ∷ es) h = elim (Bool-cases (stops_hard e)) [
    | inl p ↦ (e.event_type, ground arith)
    | inr p ↦
        let (x, found) =
          score_delta-stops clock m
            (if o.lt (o.lit 500_000) e.severity
              then o.sub delta (o.mul (impact_of (clock (length es)) m e) (o.lit 1_000_000))
              else o.add delta (o.mul (impact_of (clock (length es)) m e) (o.lit 250_000)))
            es (ground arith) in
        (x, ground arith)
  ]

  pub compute-stops :
      (clock : ℕ → F) (s : EntityState F) (es : List (CollectedEvent F)) (context : String)
      → any stops_hard es ≡ true
      → (x : String) × (compute_score clock s es context
          ≡ (o.lit 0, Action.immediate_quarantine, some x))
  unfolding compute_score
  compute-stops clock s es context h =
      let (x, found) =
        score_delta-stops clock (get_or context (o.lit 1_000_000) context_multipliers) (o.lit 0) es
          h in
      (x, ground arith)

  pub adjusted-none :
      (s : EntityState F) (bridge : F → Option (MetaDecision F)) (score : F) (x : Action)
      (score' : F) (x' : Action)
      → score ≡ score'
      → x ≡ x'
      → bridge score' ≡ none
      → adjusted s (bridge score) (score, x) ≡ (score', x')
  unfolding adjusted
  adjusted-none s bridge score x score' x' e f h =
      let unset : bridge score ≡ none = ap bridge e ∙ h in ground arith

  pub act-irreversible :
      (deps : DependencyHealthSnapshot) (draw : Draw F) (x : Action) (es : List (CollectedEvent F))
      → (signal : Option String) (s : EntityState F)
      → any prepares_irreversible (act deps draw x es signal s).1 ≡ true
      → (check_multi_source es 2 ≡ true) × (block_irreversible_actions deps ≡ false)
  unfolding act act_issue_sot
  act-irreversible deps draw x es signal s h = ground arith

  pub check_multi_source-sources :
      (es : List (CollectedEvent F))
      → check_multi_source es 2 ≡ true
      → 2 ≤ length (strong_sources es)
  unfolding check_multi_source
  check_multi_source-sources es h = leb→le 2 (length (strong_sources es)) h

  pub rescored-keeps :
      (score : F) (s : EntityState F)
      → ((rescored score s).isolation_state ≡ s.isolation_state)
        × ((rescored score s).active_sot_id ≡ s.active_sot_id)
        × ((rescored score s).current_score ≡ score)
  unfolding rescored
  rescored-keeps score s = (refl, refl, refl)
