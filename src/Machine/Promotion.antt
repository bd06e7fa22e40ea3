-- ===== src/Machine/Promotion.antt =====
-- `PromotionManager` of promotion/manager.py. `champion` and `challenger` are not read and left out.
use c_e.Common.{
  ℕ, suc, ◌+◌, ◌≤◌, Bool, true, false, not, String, List, [], ◌∷◌, ◌++◌, ◌≡◌, refl, ◌↔◌, arith, ltb,
  if◌then◌else◌, is_empty,
}
use c_e.Common.Dict.{Dict, get_or}
use c_e.Common.Float.{Float}

pub record PromotionDecision : Type 0 where
  pub approved : Bool
  pub mode : String
  pub reasons : List String

pub record Round (F : Type 0) : Type 0 where
  pub metrics : Dict F
  pub signed_approval : Bool
  pub poisoning_suspected : Bool
  pub drift_hard : Bool

abbrev reason_if : Bool → String → List String
reason_if b reason = if b then reason ∷ [] else []

module _ {F : Type 0} ⦃o : Float F⦄ where
  open o use {lit, lt, le, sub}

  pub reasons_of : Round F → List String
  reasons_of r =
      reason_if (not r.signed_approval) "missing_signed_approval"
      ++ (reason_if r.poisoning_suspected "poisoning_suspected"
          ++ (reason_if r.drift_hard "hard_drift_active"
              ++ (reason_if
                    (le (get_or "shadow_vs_champion_delta" (sub (lit 0) (lit 1_000_000)) r.metrics)
                      (lit 0))
                    "no_robust_gain"
                  ++ reason_if
                      (lt (get_or "baseline_stability_score" (lit 0) r.metrics) (lit 600_000))
                      "baseline_unstable")))

  -- The decision on a round, and the new count of stable rounds.
  pub evaluate_promotion : (patience stable_rounds : ℕ) → Round F → PromotionDecision × ℕ
  evaluate_promotion patience stable_rounds r =
      let reasons : List String = reasons_of r in
      if not (is_empty reasons)
      then (record { approved = false; mode = "shadow"; reasons = reasons }, 0)
      else if ltb (stable_rounds + 1) patience
      then (
        record { approved = false; mode = "canary"; reasons = "patience_not_met" ∷ [] },
        stable_rounds + 1,
      )
      else (
        record { approved = true; mode = "promote"; reasons = "signed_robust_gain" ∷ [] },
        stable_rounds + 1,
      )

  -- A round that raises no reason against the challenger.
  pub record IsClean (r : Round F) : Type 0 where
    pub is_signed : r.signed_approval ≡ true
    pub unpoisoned : r.poisoning_suspected ≡ false
    pub no_hard_drift : r.drift_hard ≡ false
    pub gains :
        le (get_or "shadow_vs_champion_delta" (sub (lit 0) (lit 1_000_000)) r.metrics) (lit 0)
        ≡ false
    pub stable : lt (get_or "baseline_stability_score" (lit 0) r.metrics) (lit 600_000) ≡ false

  reasons_of-nil_iff : (r : Round F) → (is_empty (reasons_of r) ≡ true) ↔ IsClean r
  unfolding reasons_of
  reasons_of-nil_iff r = ground arith

  -- The stable rounds after a history of rounds, the latest first.
  pub rounds_after : (patience : ℕ) → List (Round F) → ℕ
  unfolding evaluate_promotion
  rounds_after patience [] = 0
  rounds_after patience (r ∷ past) = (evaluate_promotion patience (rounds_after patience past) r).1

  -- How many of the latest rounds were clean, up to the last that was not.
  abbrev pub streak : List (Round F) → ℕ
  streak [] = 0
  streak (r ∷ past) = if is_empty (reasons_of r) then suc (streak past) else 0

  rounds_after-streak :
      (patience : ℕ) (history : List (Round F)) → rounds_after patience history ≡ streak history
  unfolding rounds_after
  rounds_after-streak patience [] = refl
  rounds_after-streak patience (r ∷ past) = ground (arith, rounds_after-streak patience past)

  -- A challenger is promoted in a round exactly when the round is clean - signed, not poisoned,
  -- without hard drift, with a gain and a stable baseline - and closes a run of at least `patience`
  -- clean rounds; one bad round starts the run anew.
  pub promoted_iff :
      (patience : ℕ) (r : Round F) (past : List (Round F))
      → ((evaluate_promotion patience (rounds_after patience past) r).0.approved ≡ true)
        ↔ (IsClean r × (patience ≤ streak (r ∷ past)))
  unfolding evaluate_promotion
  promoted_iff patience r past =
      ground (arith, reasons_of-nil_iff r, rounds_after-streak patience past)
