-- ===== src/Campaign/Scores.antt =====
-- The scores of services/cortex-campaign-memory/cortex_campaign_memory/store.py. The trace and
-- correlation ids that a signal carries are left out.
use c_e.Common.{
  ℕ, ◌+◌, ◌*◌, Bool, false, not, ◌&&◌, String, List, [], ◌∷◌, ◌++◌, map, Option, none, some,
  if◌then◌else◌, leb, length, filter, str_eq, contains,
}
use c_e.Common.Int.{pos}
use c_e.Common.Dict.{Dict, lookup, get_or, insert}
use c_e.Common.Float.{Float, fmin, fmax}
use c_e.Campaign.{Store, AggregationWindow, millionths, window_seconds, aggregate, aggregate_by}

pub record CampaignSignal (F : Type 0) : Type 0 where
  pub progressive_deviation_score : F
  pub campaign_likelihood_score : F
  pub windows : List (AggregationWindow F)
  pub evidence : List String
  pub confidence : F

abbrev pub escalation : String
escalation = "campaign likelihood exceeds escalation threshold"

abbrev total : List ℕ → ℕ
total [] = 0
total (n ∷ ns) = n + total ns

module _ {F : Type 0} where
  abbrev find : String → List (AggregationWindow F) → Option (AggregationWindow F)
  find label [] = none
  find label (w ∷ ws) = if str_eq w.window label then some w else find label ws

  abbrev of_labels : List String → List (AggregationWindow F) → List (AggregationWindow F)
  of_labels labels = filter (λ w. contains w.window labels)

module _ {F : Type 0} ⦃o : Float F⦄ where
  abbrev merge_window : AggregationWindow F → AggregationWindow F → AggregationWindow F
  merge_window current item = record {
    window = item.window;
    count = if leb item.count current.count then current.count else item.count;
    weak_signal_sum = fmax current.weak_signal_sum item.weak_signal_sum;
    novelty_avg = fmax current.novelty_avg item.novelty_avg;
    anomaly_avg = fmax current.anomaly_avg item.anomaly_avg;
  }

  abbrev merge_into :
      Dict (AggregationWindow F) → List (AggregationWindow F) → Dict (AggregationWindow F)
  merge_into merged [] = merged
  merge_into merged (item ∷ items) =
      merge_into
        (elim (lookup item.window merged) [
          | none ↦ insert item.window item merged
          | some current ↦ insert item.window (merge_window current item) merged
        ])
        items

  abbrev labelled : Dict (AggregationWindow F) → List (String × ℕ) → List (AggregationWindow F)
  labelled merged [] = []
  labelled merged ((label, _) ∷ labels) = elim (lookup label merged) [
    | none ↦ labelled merged labels
    | some w ↦ w ∷ labelled merged labels
  ]

  unfoldable pub merge_windows :
      List (AggregationWindow F)
      → List (AggregationWindow F)
      → List (AggregationWindow F)
      → List (AggregationWindow F)
  merge_windows xs ys zs =
      labelled (merge_into (merge_into (merge_into [] xs) ys) zs) window_seconds

  -- A part of the score with the line of evidence for it.
  abbrev when : Bool → ℕ → String → List (F × String)
  when test points line = if test then (o.lit (points * millionths), line) ∷ [] else []

  abbrev holds : Option (AggregationWindow F) → (AggregationWindow F → Bool) → Bool
  holds none p = false
  holds (some w) p = p w

  abbrev pub at_least : F → ℕ → Bool
  at_least x n = o.le (o.lit (n * millionths)) x

  -- The parts that `progressive_deviation_score` adds up, in its order.
  unfoldable pub deviations :
      List (AggregationWindow F)
      → List (AggregationWindow F)
      → List (AggregationWindow F)
      → List (F × String)
  deviations windows path_windows resource_windows =
      when (holds (find "30d" windows) (λ w. leb 3 w.count && at_least w.weak_signal_sum 90)) 35
        "identity weak-signal accumulation exceeds 30d low-and-slow threshold"
      ++ when (holds (find "90d" windows) (λ w. leb 5 w.count)) 15
          "identity shows persistent low-and-slow behavior over 90d"
      ++ when (holds (find "30d" path_windows) (λ w. at_least w.novelty_avg 55)) 20
          "network path remains novel over 30d"
      ++ when (holds (find "30d" resource_windows) (λ w. at_least w.anomaly_avg 45)) 15
          "resource family anomaly remains elevated over 30d"

  abbrev add_points : F → List (F × String) → F
  add_points score [] = score
  add_points score ((points, _) ∷ rest) = add_points (o.add score points) rest

  -- The score and its evidence.
  unfoldable pub deviation_score : List (F × String) → F × List String
  deviation_score parts = (
    fmin (o.lit (100 * millionths)) (o.round 2 (add_points (o.lit 0) parts)),
    map (λ part. part.1) parts,
  )

  abbrev times : F → ℕ → F
  times x n = o.mul x (o.lit n)

  abbrev int : ℕ → F
  int n = o.of_int (pos n)

  module _ (sum : List F → F) where
    unfoldable pub likelihood : F → List (AggregationWindow F) → F
    likelihood progressive windows =
        let density =
          times (int (total (map (λ w. w.count) (of_labels ("7d" ∷ "30d" ∷ []) windows))))
            2_500_000 in
        let novelty_pressure =
          times (sum (map (λ w. w.novelty_avg) (of_labels ("30d" ∷ "90d" ∷ []) windows))) 120_000 in
        let anomaly_pressure =
          times (sum (map (λ w. w.anomaly_avg) (of_labels ("7d" ∷ "30d" ∷ []) windows))) 180_000 in
        fmin (o.lit (100 * millionths))
          (o.round 2 (o.add (o.add (o.add progressive density) novelty_pressure) anomaly_pressure))

    unfoldable pub confidence_of : List String → List (AggregationWindow F) → F
    confidence_of evidence windows = fmin (o.lit 950_000) (
        o.round 2 (
          o.add (o.add (o.lit 350_000) (o.mul (o.lit 80_000) (int (length evidence))))
            (o.mul (o.lit 30_000) (int (if leb 5 (length windows) then 5 else length windows)))))

    -- The three times at which the windows are drawn come first.
    unfoldable pub campaign_likelihood_score :
        F × F × F → String → Option String → Option String → Store F → CampaignSignal F
    unfolding likelihood confidence_of
    campaign_likelihood_score (now, then_path, then_family) identity_id path_id resource_family s =
        let windows = aggregate sum now (get_or identity_id [] s.by_identity) in
        let path_windows = aggregate_by sum then_path path_id s.by_path in
        let resource_windows = aggregate_by sum then_family resource_family s.by_resource_family in
        let (progressive, evidence) =
          deviation_score (deviations windows path_windows resource_windows) in
        let merged = merge_windows windows path_windows resource_windows in
        let score = likelihood progressive merged in
        record {
          progressive_deviation_score = progressive;
          campaign_likelihood_score = score;
          windows = merged;
          evidence =
              if at_least score 70 && not (contains escalation evidence)
              then evidence ++ escalation ∷ []
              else evidence;
          confidence = confidence_of evidence merged;
        }
