-- ===== src/Campaign/Examples.antt =====
-- Campaign stores on concrete inputs.
use c_e.Common.{ℕ, ◌*◌, ◌≡◌, String, List, [], ◌∷◌, refl, map}
use c_e.Common.Int.{◌-ℤ◌}
use c_e.Common.Float.{Micro, micro_float}
use c_e.Campaign.{Fingerprint, empty, aggregate, store_event_fingerprint}
use c_e.Campaign.Indexes.{StoreCall, stored, store_after, Indexes, store_after-Indexes}

abbrev days : ℕ → Micro
days n = micro_float.lit (n * 86_400 * 1_000_000)

abbrev event : String → String → ℕ → Fingerprint Micro
event id path day = record {
  event_id = id;
  identity_id = "alice";
  path_id = path;
  resource_family = "vault";
  weak_signal_score = micro_float.lit 40_000_000;
  novelty_score = micro_float.lit 60_000_000;
  anomaly_score = micro_float.lit 50_000_000;
  timestamp = days day;
}

-- The first event is too old when the last one arrives.
abbrev calls : List (StoreCall Micro)
calls =
    stored (days 1) (event "e-1" "p-1" 1)
    ∷ stored (days 99) (event "e-2" "p-2" 99)
    ∷ stored (days 100) (event "e-3" "p-2" 100)
    ∷ []

abbrev alices : List (Fingerprint Micro)
alices = event "e-1" "p-1" 75 ∷ event "e-2" "p-2" 99 ∷ event "e-3" "p-2" 100 ∷ []

abbrev total : List Micro → Micro
total [] = micro_float.lit 0
total (x ∷ xs) = micro_float.add x (total xs)

kept : map (λ e. e.event_id) (store_after calls empty).events ≡ "e-2" ∷ "e-3" ∷ []
unfolding store_after store_event_fingerprint ◌-ℤ◌
kept = refl

counts : map (λ w. w.count) (aggregate total (days 100) alices) ≡ 2 ∷ 2 ∷ 3 ∷ 3 ∷ []
unfolding aggregate ◌-ℤ◌
counts = refl

store_after-Indexes_example :
    Indexes
      (λ e. e.identity_id)
      (store_after calls empty).by_identity
      (store_after calls empty).events
    × Indexes (λ e. e.path_id) (store_after calls empty).by_path (store_after calls empty).events
    × Indexes
        (λ e. e.resource_family)
        (store_after calls empty).by_resource_family
        (store_after calls empty).events
store_after-Indexes_example = store_after-Indexes calls

abbrev read_at : Micro × Micro × Micro
read_at = (days 100, days 100, days 100)
