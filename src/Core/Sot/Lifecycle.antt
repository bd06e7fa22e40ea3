-- ===== src/Core/Sot/Lifecycle.antt =====
-- The life of an observation token: which operations end it, and that the end is final.
use c_e.Common.{Bool, false, String, List, [], ◌∷◌, ◌≡◌, arith}
use c_e.Common.Float.{Float, IsOrdered, ◌≼◌}
use c_e.Core.Sot.{SotRecord, expire_sot, revoke_sot, evaluate_sot_impact}

-- The two operations on an issued token, each with the clock that it reads.
pub data Update (F : Type 0) : Type 0 where
  expire : F → Update F
  revoke : F → String → Update F

module _ {F : Type 0} ⦃o : Float F⦄ where
  pub update : Update F → SotRecord F → SotRecord F
  update (expire now) s = expire_sot now s
  update (revoke now reason) s = revoke_sot now reason s

  unfoldable pub updates : List (Update F) → SotRecord F → SotRecord F
  updates [] s = s
  updates (u ∷ us) s = updates us (update u s)

  abbrev active_at : F → SotRecord F → Bool
  active_at now s = (evaluate_sot_impact now s).active

  module _ (laws : IsOrdered F) where
    open laws use {le_of_not_lt, not_lt_of_le, le_trans, refl_of_le, le_of_lt}

    lt-mono_right : (a b c : F) → b ≼ c → a ≼ a → o.lt a c ≡ false → o.lt a b ≡ false
    lt-mono_right a b c h num p =
        not_lt_of_le b a (le_trans b c a h (le_of_not_lt c a (refl_of_le b c h).1 num p))

    update-inactive :
        (u : Update F) (s : SotRecord F) (now : F)
        → now ≼ now
        → s.expires_at ≼ s.expires_at
        → active_at now s ≡ false
        → (active_at now (update u s) ≡ false)
    unfolding update expire_sot revoke_sot evaluate_sot_impact
    update-inactive (expire t) s now n e h =
        ground (arith, lt-mono_right now t s.expires_at, le_of_lt t s.expires_at)
    update-inactive (revoke t reason) s now n e h = ground arith

    update-num :
        (u : Update F) (s : SotRecord F)
        → s.expires_at ≼ s.expires_at
        → (update u s).expires_at ≼ (update u s).expires_at
    unfolding update expire_sot revoke_sot
    update-num (expire t) s e = ground (arith, le_of_lt t s.expires_at, refl_of_le t s.expires_at)
    update-num (revoke t reason) s e = e

    updates-inactive :
        (us : List (Update F)) (s : SotRecord F) (now : F)
        → now ≼ now
        → s.expires_at ≼ s.expires_at
        → active_at now s ≡ false
        → active_at now (updates us s) ≡ false
    unfolding updates
    updates-inactive [] s now n e h = h
    updates-inactive (u ∷ us) s now n e h =
        updates-inactive us (update u s) now n (update-num u s e) (update-inactive u s now n e h)

    abbrev pub clock : Update F → F
    clock (expire t) = t
    clock (revoke t reason) = t

    update-ends :
        (u : Update F) (s : SotRecord F) (later : F)
        → s.expires_at ≼ s.expires_at
        → clock u ≼ later
        → active_at later (update u s) ≡ false
    unfolding update expire_sot revoke_sot evaluate_sot_impact
    update-ends (expire t) s later e h = ground (
      arith,
      not_lt_of_le t later h,
      le_of_not_lt s.expires_at t e (refl_of_le t later h).0,
      le_trans s.expires_at t later,
      not_lt_of_le s.expires_at later,
    )
    update-ends (revoke t reason) s later e h = ground arith

    inactive-impact :
        (s : SotRecord F) (now : F)
        → active_at now s ≡ false
        → let impact = evaluate_sot_impact now s in
          (impact.active ≡ false)
          × (impact.escalation_ready ≡ false)
          × (impact.trust_recovery_penalty ≡ o.lit 0)
    unfolding evaluate_sot_impact
    inactive-impact s now h = ground arith

    -- Given the order laws of floats: expiring or revoking a token ends it for good. At every
    -- time from that call on, whatever further expiries and revocations follow, its impact is
    -- inactive, asks for no escalation and carries the penalty 0. The token's own expiry time
    -- must be no NaN.
    pub ended_for_good :
        (u : Update F) (us : List (Update F)) (s : SotRecord F) (later : F)
        → s.expires_at ≼ s.expires_at
        → clock u ≼ later
        → let impact = evaluate_sot_impact later (updates us (update u s)) in
          (impact.active ≡ false)
          × (impact.escalation_ready ≡ false)
          × (impact.trust_recovery_penalty ≡ o.lit 0)
    ended_for_good u us s later e h = inactive-impact (updates us (update u s)) later (
        updates-inactive us (update u s) later (refl_of_le _ _ h).1 (update-num u s e)
          (update-ends u s later e h))
