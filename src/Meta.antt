-- ===== src/Meta.antt =====
-- cortex/meta_decision: the memory of earlier cases, case_memory_store.py, here; the decision to
-- reuse one, the trust in agents and the arbitration of their signals in the child modules. The
-- clock, the similarity of two texts by `difflib`, and the builtin sort are arguments.
pub mod Reuse
pub mod Memory
pub mod Agents
pub mod Trust
pub mod Fingerprint
pub mod Linker
pub mod Messages
pub mod Scores
pub mod Decision
pub mod InRange
pub mod Outcomes
pub mod Results
pub mod Warrants
mod Sample
pub mod Examples
use c_e.Common.{
  ℕ, suc, ◌+◌, Bool, true, false, not, ◌&&◌, ◌||◌, String, List, [], ◌∷◌, ◌++◌, map, Option, none,
  some, if◌then◌else◌, filter, take, take_last, str_eq, length,
}
use c_e.Common.Int.{ℤ, pos}
use c_e.Common.Dict.{Dict}
use c_e.Common.Float.{Float, clamp}

pub record MemoryCase (F : Type 0) : Type 0 where
  pub fingerprint : String
  pub fingerprint_material : String
  pub scores : Dict F
  pub agents_used : List String
  pub model_version : String
  pub policy_version : String
  pub reusability_score : F
  pub created_at : F
  pub ttl_seconds : ℕ
  pub invalidated : Bool
  pub invalidation_reason : String

pub record Match (F : Type 0) : Type 0 where
  pub case : MemoryCase F
  pub similarity : F

-- `CaseMemoryStore(default_ttl_seconds, max_items)`, with a positive `max_items`.
pub record Limits : Type 0 where
  pub default_ttl_seconds : ℕ
  pub max_items : ℕ

-- `ttl_seconds or self.default_ttl_seconds`
abbrev ttl_of : Limits → Option ℕ → ℕ
ttl_of limits none = limits.default_ttl_seconds
ttl_of limits (some ℕ.zero) = limits.default_ttl_seconds
ttl_of limits (some (suc n)) = suc n

module _ {F : Type 0} ⦃o : Float F⦄ where
  abbrev pub unit_clamp : F → F
  unit_clamp = clamp (o.lit 0) (o.lit 1_000_000)

  unfoldable pub is_expired : F → MemoryCase F → Bool
  is_expired now case = o.lt (o.add case.created_at (o.of_int (pos case.ttl_seconds))) now

  abbrev pub is_active : F → MemoryCase F → Bool
  is_active now case = not case.invalidated && not (is_expired now case)

  -- The active cases, which are also what the store keeps.
  unfoldable pub active_cases : Limits → F → List (MemoryCase F) → List (MemoryCase F)
  active_cases limits now cases = take_last limits.max_items (filter (is_active now) cases)

  -- The case as the caller gives it; the store sets its score, time and end.
  unfoldable pub store_case :
      Limits → F → Option ℕ → MemoryCase F → List (MemoryCase F) → List (MemoryCase F)
  store_case limits now ttl case cases = take_last limits.max_items (
      cases
      ++ record case {
        reusability_score = unit_clamp case.reusability_score;
        created_at = now;
        ttl_seconds = ttl_of limits ttl;
        invalidated = false;
        invalidation_reason = "";
      }
        ∷ [])

  unfoldable pub invalidate : String → String → List (MemoryCase F) → List (MemoryCase F)
  invalidate fingerprint reason [] = []
  invalidate fingerprint reason (case ∷ cases) =
      (if str_eq case.fingerprint fingerprint
        then record case { invalidated = true; invalidation_reason = reason }
        else case)
      ∷ invalidate fingerprint reason cases

  module _ (ratio : String → String → F) (sorted : List (Match F) → List (Match F)) where
    abbrev match_of : String → String → MemoryCase F → Match F
    match_of fingerprint material case = record {
      case = case;
      similarity =
          if str_eq case.fingerprint fingerprint
          then o.lit 1_000_000
          else unit_clamp (ratio case.fingerprint_material material);
    }

    -- The matches, and what the store keeps.
    unfoldable pub lookup_cases :
        Limits
        → F
        → String
        → String
        → F
        → ℕ
        → List (MemoryCase F)
        → List (Match F) × List (MemoryCase F)
    lookup_cases limits now fingerprint material min_similarity limit cases =
        let active = active_cases limits now cases in
        (
          take limit (
              sorted (
                filter (λ m. not (o.lt m.similarity min_similarity))
                  (map (match_of fingerprint material) active))),
          active,
        )
