-- ===== src/Policy/Production.antt =====
-- No registered capability may run in production, and `production_maturity_blockers` names why.
use mathlib.Core.Option.{some-injective}
use mathlib.Core.Path.{subst}
use c_e.Common.{
  true, false, String, List, [], ◌∷◌, some, ◌≡◌, refl, ◌↔◌, arith, All, Option-cases, none-ne-some,
  inl, inr, str_eq_iff,
}
use c_e.Common.Dict.{Dict, lookup}
use c_e.Common.Float.{Float}
use c_e.Core.Contracts.{ExecutionDecision, ExecutionGuardrails, RiskEnvelope}
use c_e.Core.Degraded.{maturity_allowed_in_environment, is_production_ready}
use c_e.Core.Maturity.{CapabilityDescriptor, capability_of, capability_registry, maturity_blockers}
use c_e.Policy.{PolicyDecision, evaluate_capability, evaluate}

abbrev NoneReady : Dict CapabilityDescriptor → Type 0
NoneReady = All (λ entry. is_production_ready entry.1.maturity ≡ false)

lookup-not_ready :
    (registry : Dict CapabilityDescriptor) (name : String) (c : CapabilityDescriptor)
    → NoneReady registry
    → lookup name registry ≡ some c
    → is_production_ready c.maturity ≡ false
lookup-not_ready [] name c h e = absurd (none-ne-some e)
lookup-not_ready ((j, d) ∷ registry) name c (p, ps) e =
    ground (arith, lookup-not_ready registry name c ps)

registry-NoneReady : NoneReady capability_registry
registry-NoneReady = (refl, (refl, (refl, (refl, (refl, (refl, (refl, (refl, tt))))))))

capability-not_ready :
    (name : String) (c : CapabilityDescriptor)
    → capability_of name ≡ some c
    → is_production_ready c.maturity ≡ false
unfolding capability_of
capability-not_ready name c h = lookup-not_ready capability_registry name c registry-NoneReady h

module _ {F : Type 0} ⦃o : Float F⦄ (e : RiskEnvelope F) (g : ExecutionGuardrails F) where
  denied_in_prod :
      (c : CapabilityDescriptor)
      → is_production_ready c.maturity ≡ false
      → e.environment ≡ "prod"
      → e.dry_run ≡ false
      → (evaluate_capability e g c).decision ≡ ExecutionDecision.denied
  unfolding evaluate_capability maturity_allowed_in_environment
  denied_in_prod c unready prod run = ground (arith, str_eq_iff e.environment "prod")

  -- In the environment "prod" the engine denies every action of every registered capability that
  -- is not a dry run.
  pub production_denied :
      (capability_name : String) {d : PolicyDecision}
      → e.environment ≡ "prod"
      → e.dry_run ≡ false
      → evaluate e g capability_name ≡ some d
      → d.decision ≡ ExecutionDecision.denied
  unfolding evaluate
  production_denied name prod run h = elim (Option-cases (capability_of name)) [
    | inl e₀ ↦ absurd (none-ne-some (rw (e₀, evaluate) at h))
    | inr (c, e₁) ↦
        subst (λ v. v.decision ≡ ExecutionDecision.denied)
          (some-injective _ _ (rw (e₁, evaluate) at h))
          (denied_in_prod c (capability-not_ready name c e₁) prod run)
  ]

-- A name is registered with a capability that is ready for production.
abbrev IsReady : Dict CapabilityDescriptor → String → Type 0
IsReady registry name =
    (c : CapabilityDescriptor) × (lookup name registry ≡ some c)
    × (is_production_ready c.maturity ≡ true)

-- Over any registry, no blockers are reported exactly when every listed capability is registered
-- as ready for production.
maturity_blockers-nil_iff :
    (registry : Dict CapabilityDescriptor) (names : List String)
    → (maturity_blockers registry names ≡ some []) ↔ All (IsReady registry) names
unfolding maturity_blockers
maturity_blockers-nil_iff registry [] = (λ h. tt, λ h. refl)
maturity_blockers-nil_iff registry (name ∷ names) =
    ground (arith, maturity_blockers-nil_iff registry names)
