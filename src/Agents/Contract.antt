-- ===== src/Agents/Contract.antt =====
-- When an exported signal meets the contract `AgentSignal` of
-- shared/cortex-core/cortex_core/meta_decision.py.
use c_e.Common.{
  ℕ, Bool, true, false, Bool-cases, String, Option, none, some, inl, inr, arith, if◌then◌else◌, ◌≡◌,
  ◌↔◌,
}
use c_e.Common.{le→leb}
use c_e.Common.Int.{pos, -ℤ_parts}
use c_e.Common.Float.{
  Float, IsOrdered, InUnit, ◌≼◌, fmax, clamp-InUnit, lit-InUnit, Micro, micro_float,
}
use c_e.Meta.Fingerprint.{Json, null, flag, integer, number, text, items, object, Fields, get_field}
use c_e.Agents.{AgentResult}
use c_e.Agents.Export.{
  ExportedSignal, SignalTask, or_other, normalize_score, level_of, nested, is_set, baseline_of,
  extract_risk_signal, build_agent_signal,
}

-- A field of type `str`, for which None is refused.
abbrev pub IsPresent : Option String → Type 0
IsPresent x = (s : String) × (x ≡ some s)

-- The numbers with `Field(ge=0.0, le=1.0)`.
pub record IsBounded {F : Type 0} ⦃o : Float F⦄ (signal : ExportedSignal F) : Type 0 where
  pub risk_signal : InUnit signal.risk_signal
  pub priority : InUnit signal.priority
  pub runtime_trust : InUnit signal.runtime_trust
  pub uncertainty : InUnit signal.uncertainty
  pub data_quality : InUnit signal.data_quality
  pub reasoning_quality : InUnit signal.reasoning_quality

-- The contract's validation of the bounds and of the two texts that may be missing.
pub record IsAccepted {F : Type 0} ⦃o : Float F⦄ (signal : ExportedSignal F) : Type 0 where
  pub entity_id : IsPresent signal.entity_id
  pub entity_type : IsPresent signal.entity_type
  pub bounds : IsBounded signal

-- Subtracting a literal does not increase a float that is no NaN.
pub record IsShrinking (F : Type 0) ⦃o : Float F⦄ : Type 0 where
  pub sub_le : (x : F) (n : ℕ) → x ≼ x → o.sub x (o.lit n) ≼ x

Micro-sub_le : (x : Micro) (n : ℕ) → x ≼ x → micro_float.sub x (micro_float.lit n) ≼ x
Micro-sub_le none n h = h
Micro-sub_le (some a) n h = le→leb _ _ (omega (arith, -ℤ_parts a (pos n)))

pub Micro-IsShrinking : IsShrinking Micro
Micro-IsShrinking = record { sub_le = Micro-sub_le }

abbrev MaybeInUnit : {F : Type 0} ⦃o : Float F⦄ → Option F → Type 0
MaybeInUnit none = Unit
MaybeInUnit (some x) = InUnit x

module _ {F : Type 0} ⦃o : Float F⦄ (laws : IsOrdered F) (shrinks : IsShrinking F) where
  open laws use {le_of_lt, le_trans, refl_of_le}

  fmax-InUnit : (x y : F) → InUnit x → InUnit y → InUnit (fmax x y)
  fmax-InUnit x y h k = elim (Bool-cases (o.lt x y)) [ inl e ↦ rw e k | inr e ↦ rw e h ]

  if-InUnit : (b : Bool) (x y : F) → InUnit x → InUnit y → InUnit (if b then x else y)
  if-InUnit true x y h k = h
  if-InUnit false x y h k = k

  -- `max(0.2, baseline - 0.1)`
  lowered-InUnit : (x : F) → InUnit x → InUnit (fmax (o.lit 200_000) (o.sub x (o.lit 100_000)))
  lowered-InUnit x (low, high) =
      let least = lit-InUnit laws 200_000 (omega arith) in
      let less = shrinks.sub_le x 100_000 (refl_of_le (o.lit 0) x low).1 in
      elim (Bool-cases (o.lt (o.lit 200_000) (o.sub x (o.lit 100_000)))) [
        | inl e ↦ rw e (
          le_trans (o.lit 0) (o.lit 200_000) _ least.0 (le_of_lt _ _ e),
          le_trans _ x (o.lit 1_000_000) less high,
        )
        | inr e ↦ rw e least
      ]

  baseline-InUnit : (result : AgentResult F) → InUnit (baseline_of result)
  baseline-InUnit result =
      let first = lit-InUnit laws 350_000 (omega arith) in
      let second =
        if-InUnit result.requires_approval _ _
          (fmax-InUnit _ _ first (lit-InUnit laws 700_000 (omega arith))) first in
      let third =
        if-InUnit (is_set (get_field "blocked" result.output)) _ _
          (fmax-InUnit _ _ second (lit-InUnit laws 820_000 (omega arith))) second in
      if-InUnit result.success _ _ third (lowered-InUnit _ third)

  score-InUnit : (value : Option (Json F)) → MaybeInUnit (normalize_score value)
  score-InUnit none = tt
  score-InUnit (some (number x)) = clamp-InUnit laws _
  score-InUnit (some (integer n)) = clamp-InUnit laws _
  score-InUnit (some null) = tt
  score-InUnit (some (flag x)) = tt
  score-InUnit (some (text s)) = tt
  score-InUnit (some (items vs)) = tt
  score-InUnit (some (object fs)) = tt

  level-InUnit : (value : Option (Json F)) → MaybeInUnit (level_of value)
  level-InUnit none = tt
  level-InUnit (some (number x)) = clamp-InUnit laws _
  level-InUnit (some (integer n)) = clamp-InUnit laws _
  level-InUnit (some (flag x)) = clamp-InUnit laws _
  level-InUnit (some null) = tt
  level-InUnit (some (text s)) = tt
  level-InUnit (some (items vs)) = tt
  level-InUnit (some (object fs)) = tt

  or-InUnit : (x y : Option F) → MaybeInUnit x → MaybeInUnit y → MaybeInUnit (or_other x y)
  or-InUnit none y h k = k
  or-InUnit (some x) y h k = h

  found-InUnit :
      (x : Option F) (default : F)
      → MaybeInUnit x
      → InUnit default
      → InUnit (elim x [ none ↦ default | some y ↦ y ])
  found-InUnit none default h k = k
  found-InUnit (some y) default h k = h

  risk-InUnit : (result : AgentResult F) → InUnit (extract_risk_signal result)
  unfolding extract_risk_signal
  risk-InUnit result =
      let output = result.output in
      found-InUnit _ _
        (or-InUnit _ _ (score-InUnit (get_field "risk_signal" output)) (
          or-InUnit _ _ (level-InUnit (get_field "risk_level" output)) (
            or-InUnit _ _ (level-InUnit (nested "decision" "risk_level" output)) (
              or-InUnit _ _ (score-InUnit (get_field "score" output))
                (score-InUnit (nested "blast_radius" "score" output))))))
        (baseline-InUnit result)

  signal-IsBounded :
      (mentions : String → Fields F → Bool) (task : SignalTask) (result : AgentResult F)
      → IsBounded (build_agent_signal mentions task result)
  unfolding build_agent_signal
  signal-IsBounded mentions task result = record {
    risk_signal = risk-InUnit result;
    priority = clamp-InUnit laws _;
    runtime_trust = clamp-InUnit laws _;
    uncertainty =
        if-InUnit (is_set (nested "decision" "advisory_only" result.output)) _ _
          (fmax-InUnit _ _ (clamp-InUnit laws _) (lit-InUnit laws 450_000 (omega arith)))
          (clamp-InUnit laws _);
    data_quality = clamp-InUnit laws _;
    reasoning_quality = clamp-InUnit laws _;
  }

  -- Given the order laws of floats, and that subtracting a literal does not increase a number: the
  -- risk, priority, trust, uncertainty and qualities of the signal made of a task and its result lie
  -- between 0 and 1, whatever the output holds (with integers in the range of floats) and whether it
  -- succeeded or not, and the contract accepts the signal exactly when the task has an entity id and
  -- an entity type.
  pub build_agent_signal-IsAccepted :
      (mentions : String → Fields F → Bool) (task : SignalTask) (result : AgentResult F)
      → (IsBounded (build_agent_signal mentions task result))
        × ((IsAccepted (build_agent_signal mentions task result))
            ↔ ((IsPresent task.entity_id) × (IsPresent task.entity_type)))
  unfolding build_agent_signal
  build_agent_signal-IsAccepted mentions task result = (
    signal-IsBounded mentions task result,
    (
      λ accepted. (accepted.entity_id, accepted.entity_type),
      λ present. record {
        entity_id = present.0;
        entity_type = present.1;
        bounds = signal-IsBounded mentions task result;
      },
    ),
  )
