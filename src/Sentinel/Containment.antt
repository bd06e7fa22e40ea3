-- ===== src/Sentinel/Containment.antt =====
-- What a cycle of the engine can contain, and what it leaves alone.
use c_e.Common.{
  ℕ, ◌≤◌, Bool, true, false, String, List, [], ◌∷◌, Option, ◌≡◌, refl, sym, ◌∙◌, ap, arith, any,
  map, Bool-cases, length, inl, inr,
}
use c_e.Common.Float.{Float}
use c_e.Core.Contracts.{DependencyHealthSnapshot}
use c_e.Core.Degraded.{block_irreversible_actions}
use c_e.Sentinel.Engine.{EntityState, CollectedEvent, Action, compute_score, strong_sources}
use c_e.Sentinel.Handlers.{
  MetaDecision, Environment, detect_context, Effect, Draw, act, adjusted, watched, rescored, cycle,
  observed, trust_update, meta_effects,
}
use c_e.Sentinel.Effects.{
  isolates, prepares_irreversible, intervenes, any-skip, cons-skip, IsInert, OfAct, any-observed,
  any-meta, compute-IsInert, adjusted-IsInert, act-inert, watched-keeps, act-irreversible,
  check_multi_source-sources, rescored-keeps,
}

module _ {F : Type 0} ⦃o : Float F⦄ where
  module _ (deps : DependencyHealthSnapshot) (draw : Draw F) (env : Environment) (clock : ℕ → F)
      (bridge : F → Option (MetaDecision F)) (first : CollectedEvent F)
      (rest : List (CollectedEvent F)) (s : EntityState F) where
    abbrev verdict : F × Action × Option String
    verdict = compute_score clock (watched s) (first ∷ rest) (detect_context env)

    abbrev decision : F × Action
    decision = adjusted (watched s) (bridge verdict.0) (verdict.0, verdict.1)

    abbrev acted : EntityState F × List (Effect F)
    acted = act deps draw decision.1 (first ∷ rest) verdict.2 (rescored decision.0 (watched s))

    abbrev cycled : EntityState F × List (Effect F)
    cycled = cycle deps draw env clock bridge (first ∷ rest) s

    cycle-state : cycled.0 ≡ acted.0
    unfolding cycle
    cycle-state = refl

    cycle-any : (p : Effect F → Bool) → OfAct p → any p cycled.1 ≡ any p acted.1
    unfolding cycle
    cycle-any p h =
        any-skip p (map observed (first ∷ rest)) _ (any-observed p h (first ∷ rest))
        ∙ (cons-skip p (trust_update _ _ _ _ _) _ (h.1 _ _ _ _ _)
            ∙ any-skip p (meta_effects (bridge verdict.0)) _ (any-meta p h (bridge verdict.0)))

    protected-IsInert : s.is_protected ≡ true → IsInert decision.1
    protected-IsInert h =
        let (guarded, _) = watched-keeps s in
        adjusted-IsInert (watched s) (bridge verdict.0) verdict.0 verdict.1 (guarded ∙ h)
          (compute-IsInert clock (watched s) (first ∷ rest) (detect_context env) (guarded ∙ h))

    left_alone :
        IsInert decision.1
        → (cycled.0.isolation_state ≡ (watched s).isolation_state)
          × (cycled.0.active_sot_id ≡ s.active_sot_id)
          × (any isolates cycled.1 ≡ false)
          × (any intervenes cycled.1 ≡ false)
    left_alone inert =
        let quiet : acted ≡ (rescored decision.0 (watched s), []) =
          act-inert deps draw decision.1 (first ∷ rest) verdict.2 (rescored decision.0 (watched s))
            inert in
        let (state, token, _) = rescored-keeps decision.0 (watched s) in
        let (_, tokens) = watched-keeps s in
        (
          ap (λ t. t.isolation_state) cycle-state ∙ (ap (λ r. r.0.isolation_state) quiet ∙ state),
          ap (λ t. t.active_sot_id) cycle-state
              ∙ (ap (λ r. r.0.active_sot_id) quiet ∙ (token ∙ tokens)),
          cycle-any isolates ((λ _. refl), (λ _ _ _ _ _. refl), λ _. refl)
              ∙ ap (λ r. any isolates r.1) quiet,
          cycle-any intervenes ((λ _. refl), (λ _ _ _ _ _. refl), λ _. refl)
              ∙ ap (λ r. any intervenes r.1) quiet,
        )

    -- A cycle leaves the isolation state and the active token of a protected entity alone, whatever
    -- the events and the meta decision, apart from the step from free to monitored, and sends only
    -- reports: the events, the trust update and the meta decision. It neither isolates, restricts nor
    -- blocks anything, issues no token and asks for no remediation.
    pub protected_left_alone :
        s.is_protected ≡ true
        → (cycled.0.isolation_state ≡ (watched s).isolation_state)
          × (cycled.0.active_sot_id ≡ s.active_sot_id)
          × (any intervenes cycled.1 ≡ false)
    protected_left_alone h =
        let (state, token, _, reports) = left_alone (protected-IsInert h) in (state, token, reports)

    -- A cycle prepares an irreversible containment only on events of at least two sources of a
    -- severity above 0.6, while none of the approval service, the message bus and the sentinel is
    -- unavailable, and never for a protected entity.
    pub irreversible_needs_sources :
        any prepares_irreversible cycled.1 ≡ true
        → (2 ≤ length (strong_sources (first ∷ rest)))
          × (block_irreversible_actions deps ≡ false)
          × (s.is_protected ≡ false)
    irreversible_needs_sources h =
        let every : OfAct prepares_irreversible = ((λ _. refl), (λ _ _ _ _ _. refl), λ _. refl) in
        let (sources, up) =
          act-irreversible deps draw decision.1 (first ∷ rest) verdict.2
            (rescored decision.0 (watched s)) (sym (cycle-any prepares_irreversible every) ∙ h) in
        (
          check_multi_source-sources (first ∷ rest) sources,
          up,
          elim (Bool-cases s.is_protected) [
            | inr unprotected ↦ unprotected
            | inl protected ↦
                let inert : any prepares_irreversible acted.1 ≡ false =
                  ap (λ r. any prepares_irreversible r.1)
                    (act-inert deps draw decision.1 (first ∷ rest) verdict.2
                      (rescored decision.0 (watched s)) (protected-IsInert protected)) in
                let no : any prepares_irreversible cycled.1 ≡ false =
                  cycle-any prepares_irreversible every ∙ inert in
                ground arith
          ],
        )
