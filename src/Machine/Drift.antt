-- ===== src/Machine/Drift.antt =====
-- The drift detectors of drift/detectors.py. `statistics.fmean` is an argument, the mean of a list.
use c_e.Common.{
  ℕ, ◌+◌, ◌-◌, ◌/◌, ◌≤◌, Bool, true, false, ◌&&◌, ◌||◌, String, List, [], ◌∷◌, ◌++◌, ◌≡◌, arith,
  ltb, if◌then◌else◌, length, take, drop, take_last, length-append, length-drop,
}
use c_e.Common.Int.{pos}
use c_e.Common.Float.{Float, fmin}

-- The state of `PageHinkley`, with its defaults for `threshold` and `alpha`.
pub record PageHinkley (F : Type 0) : Type 0 where
  pub mean : F
  pub cumulative : F
  pub min_cumulative : F
  pub count : ℕ

pub record DriftStatus (F : Type 0) : Type 0 where
  pub soft_drift : Bool
  pub hard_drift : Bool
  pub adwin_mean : F
  pub page_hinkley_mean : F
  pub reasons : List String

pub record Detectors (F : Type 0) : Type 0 where
  pub window : List F
  pub page_hinkley : PageHinkley F

module _ {F : Type 0} ⦃o : Float F⦄ (fmean : List F → F) where
  open o use {lit, of_int, lt, add, sub, mul, div, round}

  -- `abs(x)`
  abbrev magnitude : F → F
  magnitude x = if lt x (lit 0) then sub (lit 0) x else x

  -- `ADWINLike.update` with `max_window` 64 and `delta` 0.2: the trigger, the mean, the new window.
  update_window : List F → F → Bool × F × List F
  update_window window value =
      let recent : List F = take_last 64 (window ++ (value ∷ [])) in
      if ltb (length recent) 8 then (false, fmean recent, recent) else (
        lt (lit 200_000) (
            magnitude (
              sub (fmean (take (length recent / 2) recent))
                (fmean (drop (length recent / 2) recent)))),
        fmean recent,
        recent,
      )

  -- `PageHinkley.update`
  update_page_hinkley : PageHinkley F → F → Bool × F × PageHinkley F
  update_page_hinkley p value =
      let count : ℕ = p.count + 1 in
      let mean : F = add p.mean (div (sub value p.mean) (of_int (pos count))) in
      let cumulative : F = sub (add (mul (lit 990_000) p.cumulative) value) mean in
      let low : F = fmin p.min_cumulative cumulative in
      (
        lt (lit 250_000) (sub cumulative low),
        mean,
        record { mean = mean; cumulative = cumulative; min_cumulative = low; count = count },
      )

  abbrev reason_if : Bool → String → List String
  reason_if b reason = if b then reason ∷ [] else []

  -- `DriftDetectorSuite.evaluate`
  evaluate_drift : Detectors F → (score feature_mean : F) → DriftStatus F × Detectors F
  evaluate_drift d score feature_mean =
      let (adwin_trigger, adwin_mean, window) = update_window d.window feature_mean in
      let (ph_trigger, ph_mean, page_hinkley) = update_page_hinkley d.page_hinkley score in
      (
        record {
          soft_drift = adwin_trigger || ph_trigger;
          hard_drift = adwin_trigger && ph_trigger;
          adwin_mean = round 4 adwin_mean;
          page_hinkley_mean = round 4 ph_mean;
          reasons =
              reason_if adwin_trigger "distribution_shift" ++ reason_if ph_trigger "score_shift";
        },
        record { window = window; page_hinkley = page_hinkley },
      )

  -- The detectors after a list of scores and feature means.
  drift_after : Detectors F → List (F × F) → Detectors F
  unfolding evaluate_drift
  drift_after d [] = d
  drift_after d ((score, mean) ∷ rest) = drift_after (evaluate_drift d score mean).1 rest

  window-length :
      (window : List F) (value : F)
      → length window ≤ 64
      → length (update_window window value).2
        ≡ (if ltb (length window) 64 then length window + 1 else 64)
  unfolding update_window
  window-length window value h = ground (
    arith,
    length-append window (value ∷ []),
    length-drop (length (window ++ (value ∷ [])) - 64) (window ++ (value ∷ [])),
  )

  -- A hard drift is also a soft drift, and is reported only once the window, with the new value,
  -- holds eight values.
  hard_drift_needs_samples :
      (d : Detectors F) (score mean : F)
      → length d.window ≤ 64
      → (evaluate_drift d score mean).0.hard_drift ≡ true
      → ((evaluate_drift d score mean).0.soft_drift ≡ true) × (7 ≤ length d.window)
  unfolding evaluate_drift update_window
  hard_drift_needs_samples d score mean h hard = ground (arith, window-length d.window mean h)

  window_bounded-step :
      (d : Detectors F) (score mean : F)
      → length d.window ≤ 64
      → length (evaluate_drift d score mean).1.window ≤ 64
  unfolding evaluate_drift
  window_bounded-step d score mean h = ground (arith, window-length d.window mean h)

  -- The window never holds more than 64 values.
  window_bounded :
      (samples : List (F × F)) (d : Detectors F)
      → length d.window ≤ 64
      → length (drift_after d samples).window ≤ 64
  unfolding drift_after evaluate_drift
  window_bounded [] d h = h
  window_bounded ((score, mean) ∷ rest) d h =
      window_bounded rest (evaluate_drift d score mean).1 (window_bounded-step d score mean h)
