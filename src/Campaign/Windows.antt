-- ===== src/Campaign/Windows.antt =====
-- The windows and scores of the campaign store.
use c_e.Common.{
  ℕ, ◌≤◌, ◌*◌, Bool, true, false, String, List, [], ◌∷◌, ◌++◌, Option, ◌≡◌, refl, arith, ◌↔◌,
  if◌then◌else◌, filter, length, is_empty, map, contains, not, ◌&&◌, str_eq_refl,
}
use c_e.Common.Dict.{get_or}
use c_e.Common.Float.{Float, IsOrdered, ◌≼◌, fmin}
use c_e.Campaign.{
  Fingerprint, Store, AggregationWindow, within, window_of, aggregate, aggregate_by, millionths,
}
use c_e.Campaign.Scores.{campaign_likelihood_score, deviation_score, escalation, deviations}

module _ {A : Type 0} where
  length-filter_mono :
      (p q : A → Bool) (xs : List A)
      → ((x : A) → p x ≡ true → q x ≡ true)
      → length (filter p xs) ≤ length (filter q xs)
  length-filter_mono p q [] h = omega arith
  length-filter_mono p q (x ∷ xs) h = ground (arith, length-filter_mono p q xs h, h x)

  is_empty-length : (xs : List A) → is_empty xs ≡ true → length xs ≡ 0
  is_empty-length [] h = refl
  is_empty-length (x ∷ xs) h = cc

-- The counts of a list of windows never fall.
abbrev CountsRise : {F : Type 0} → ℕ → List (AggregationWindow F) → Type 0
CountsRise n [] = Unit
CountsRise n (w ∷ ws) = (n ≤ w.count) × CountsRise w.count ws

module _ {F : Type 0} ⦃o : Float F⦄ (laws : IsOrdered F) (sum : List F → F) where
  open laws use {lit_mono, le_trans, le_of_lt, refl_of_le}

  count-window_of :
      (now : F) (es : List (Fingerprint F)) (label : String) (seconds : ℕ)
      → (window_of sum now es (label, seconds)).count ≡ length (filter (within sum now seconds) es)
  unfolding window_of
  count-window_of now es label seconds =
      ground (arith, is_empty-length (filter (within sum now seconds) es))

  window-window_of :
      (now : F) (es : List (Fingerprint F)) (label : String) (seconds : ℕ)
      → (window_of sum now es (label, seconds)).window ≡ label
  unfolding window_of
  window-window_of now es label seconds = ground arith

  within_longer :
      (now : F) (m n : ℕ) (e : Fingerprint F)
      → m ≤ n
      → within sum now m e ≡ true
      → within sum now n e ≡ true
  within_longer now m n e h w =
      le_trans (o.sub now e.timestamp) (o.lit (m * millionths)) (o.lit (n * millionths)) w
        (lit_mono (m * millionths) (n * millionths) (omega arith))

  wider :
      (now : F) (es : List (Fingerprint F)) (a b : String) (m n : ℕ)
      → m ≤ n
      → (window_of sum now es (a, m)).count ≤ (window_of sum now es (b, n)).count
  wider now es a b m n h = omega (
    arith,
    count-window_of now es a m,
    count-window_of now es b n,
    length-filter_mono (within sum now m) (within sum now n) es (λ e. within_longer now m n e h),
  )

  -- Given the order laws of floats: at each time, the windows of a list of events are those of 24
  -- hours, 7, 30 and 90 days in this order, and each counts at least the events of the one before.
  aggregate-CountsRise :
      (now : F) (es : List (Fingerprint F))
      → (map (λ w. w.window) (aggregate sum now es) ≡ "24h" ∷ "7d" ∷ "30d" ∷ "90d" ∷ [])
        × CountsRise 0 (aggregate sum now es)
  unfolding aggregate
  aggregate-CountsRise now es = (
    ground (
      arith,
      window-window_of now es "24h" 86_400,
      window-window_of now es "7d" 604_800,
      window-window_of now es "30d" 2_592_000,
      window-window_of now es "90d" 7_776_000,
    ),
    (
      omega arith,
      (
        wider now es "24h" "7d" 86_400 604_800 (omega arith),
        (
          wider now es "7d" "30d" 604_800 2_592_000 (omega arith),
          (wider now es "30d" "90d" 2_592_000 7_776_000 (omega arith), tt),
        ),
      ),
    ),
  )

  no_escalation :
      (ws ps rs : List (AggregationWindow F))
      → contains escalation (map (λ part. part.1) (deviations ws ps rs)) ≡ false
  unfolding deviations
  no_escalation ws ps rs = ground arith

  fmin-le : (high x : F) → high ≼ high → fmin high x ≼ high
  fmin-le high x h = ground (arith, le_of_lt x high)

  contains-append : (s : String) (xs : List String) → contains s (xs ++ s ∷ []) ≡ true
  contains-append s [] = ground (arith, str_eq_refl s)
  contains-append s (x ∷ xs) = ground (arith, contains-append s xs)

  escalated_iff :
      (high : Bool) (xs : List String)
      → contains escalation xs ≡ false
      → (contains escalation
            (if high && not (contains escalation xs) then xs ++ escalation ∷ [] else xs)
          ≡ true)
        ↔ (high ≡ true)
  escalated_iff true xs h = ground (arith, contains-append escalation xs)
  escalated_iff false xs h = ground arith

  -- Given the order laws of floats: of every store and at all times, the campaign signal has both
  -- scores at most 100 and a confidence of at most 0.95, and its evidence has the line that the
  -- likelihood exceeds the escalation threshold exactly if the likelihood is at least 70.
  pub campaign_likelihood_score_lem :
      (times : F × F × F) (identity_id : String) (path_id resource_family : Option String)
      → (s : Store F)
      → let signal = campaign_likelihood_score sum times identity_id path_id resource_family s in
        (signal.progressive_deviation_score ≼ o.lit 100_000_000)
        × (signal.campaign_likelihood_score ≼ o.lit 100_000_000)
        × (signal.confidence ≼ o.lit 950_000)
        × ((contains escalation signal.evidence ≡ true)
            ↔ (o.lit 70_000_000 ≼ signal.campaign_likelihood_score))
  unfolding campaign_likelihood_score deviation_score
  campaign_likelihood_score_lem times identity_id path_id resource_family s =
      let ws = aggregate sum times.0 (get_or identity_id [] s.by_identity) in
      let ps = aggregate_by sum times.1 path_id s.by_path in
      let rs = aggregate_by sum times.2 resource_family s.by_resource_family in
      (
        fmin-le _ _ (lit_mono _ _ (omega arith)),
        fmin-le _ _ (lit_mono _ _ (omega arith)),
        fmin-le _ _ (lit_mono _ _ (omega arith)),
        escalated_iff _ (map (λ part. part.1) (deviations ws ps rs)) (no_escalation ws ps rs),
      )
