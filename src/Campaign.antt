-- ===== src/Campaign.antt =====
-- services/cortex-campaign-memory/cortex_campaign_memory/store.py: the fingerprints of weak signals
-- and the windows and scores drawn from them. The clock's time at each read is an argument, as is
-- the builtin `sum`.
pub mod Indexes
pub mod Windows
pub mod Scores
pub mod Examples
use c_e.Common.{
  ℕ, ◌+◌, Bool, true, false, ◌&&◌, ◌||◌, String, List, [], ◌∷◌, ◌++◌, map, Option, none, some,
  if◌then◌else◌, leb, not, ◌*◌, length, filter, is_empty, str_eq, contains,
}
use c_e.Common.Int.{ℤ, pos}
use c_e.Common.Dict.{Dict, lookup, get_or, insert}
use c_e.Common.Float.{Float, fmin, fmax}

pub record Fingerprint (F : Type 0) : Type 0 where
  pub event_id : String
  pub identity_id : String
  pub path_id : String
  pub resource_family : String
  pub weak_signal_score : F
  pub novelty_score : F
  pub anomaly_score : F
  pub timestamp : F

pub record Store (F : Type 0) : Type 0 where
  pub events : List (Fingerprint F)
  pub by_identity : Dict (List (Fingerprint F))
  pub by_path : Dict (List (Fingerprint F))
  pub by_resource_family : Dict (List (Fingerprint F))

pub record AggregationWindow (F : Type 0) : Type 0 where
  pub window : String
  pub count : ℕ
  pub weak_signal_sum : F
  pub novelty_avg : F
  pub anomaly_avg : F

abbrev pub millionths : ℕ
millionths = 1_000_000

-- The labels and their seconds.
abbrev pub window_seconds : List (String × ℕ)
window_seconds = ("24h", 86_400) ∷ ("7d", 604_800) ∷ ("30d", 2_592_000) ∷ ("90d", 7_776_000) ∷ []

module _ {F : Type 0} where
  abbrev pub empty : Store F
  empty = record { events = []; by_identity = []; by_path = []; by_resource_family = [] }

  -- `mapping[key].append(event)` on a `defaultdict(list)`
  abbrev pub add_event :
      String → Fingerprint F → Dict (List (Fingerprint F)) → Dict (List (Fingerprint F))
  add_event key e d = insert key (get_or key [] d ++ e ∷ []) d

module _ {F : Type 0} ⦃o : Float F⦄ where
  abbrev pub fresh : F → Fingerprint F → Bool
  fresh cutoff e = o.le cutoff e.timestamp

  -- A key whose events are all too old is removed.
  pub prune_index : F → Dict (List (Fingerprint F)) → Dict (List (Fingerprint F))
  prune_index cutoff [] = []
  prune_index cutoff ((key, es) ∷ d) =
      let rest = prune_index cutoff d in
      let kept = filter (fresh cutoff) es in if is_empty kept then rest else (key, kept) ∷ rest

  prune : F → Store F → Store F
  prune now s =
      let cutoff = o.sub now (o.lit (7_776_000 * millionths)) in
      record {
        events = filter (fresh cutoff) s.events;
        by_identity = prune_index cutoff s.by_identity;
        by_path = prune_index cutoff s.by_path;
        by_resource_family = prune_index cutoff s.by_resource_family;
      }

  pub store_event_fingerprint : F → Fingerprint F → Store F → Store F
  unfolding prune
  store_event_fingerprint now e s = prune now record {
    events = s.events ++ e ∷ [];
    by_identity = add_event e.identity_id e s.by_identity;
    by_path = add_event e.path_id e s.by_path;
    by_resource_family = add_event e.resource_family e s.by_resource_family;
  }

  module _ (sum : List F → F) where
    mean : (Fingerprint F → F) → List (Fingerprint F) → F
    mean part es = o.round 2 (o.div (sum (map part es)) (o.of_int (pos (length es))))

    abbrev pub within : F → ℕ → Fingerprint F → Bool
    within now seconds e = o.le (o.sub now e.timestamp) (o.lit (seconds * millionths))

    pub window_of : F → List (Fingerprint F) → String × ℕ → AggregationWindow F
    unfolding mean
    window_of now es (label, seconds) =
        let scoped = filter (within now seconds) es in
        if is_empty scoped
        then record {
          window = label;
          count = 0;
          weak_signal_sum = o.lit 0;
          novelty_avg = o.lit 0;
          anomaly_avg = o.lit 0;
        }
        else record {
          window = label;
          count = length scoped;
          weak_signal_sum = o.round 2 (sum (map (λ e. e.weak_signal_score) scoped));
          novelty_avg = mean (λ e. e.novelty_score) scoped;
          anomaly_avg = mean (λ e. e.anomaly_score) scoped;
        }

    pub aggregate : F → List (Fingerprint F) → List (AggregationWindow F)
    unfolding window_of
    aggregate now es = map (window_of now es) window_seconds

    -- `aggregate_by_path` and `aggregate_by_resource_family`: no key, no windows.
    abbrev pub aggregate_by :
        F → Option String → Dict (List (Fingerprint F)) → List (AggregationWindow F)
    aggregate_by now none index = []
    aggregate_by now (some key) index =
        if str_eq key "" then [] else aggregate now (get_or key [] index)
