-- ===== src/Meta/Linker.antt =====
-- cortex/meta_decision/decision_memory_linker.py: the fingerprint of an event, the cases found by
-- it, and the decision whether to reuse one. What Python itself supplies is a parameter: the
-- builtins `sum`, `abs`, `sorted` and `float`, and the libraries `json`, `hashlib` and `difflib`.
use c_e.Common.{ℕ, String, List, Option, some, Bool}
use c_e.Common.Dict.{Dict}
use c_e.Common.Int.{ℤ}
use c_e.Common.Float.{Float}
use c_e.Common.Options.{◌>>=◌}
use c_e.Meta.{MemoryCase, Match, Limits, lookup_cases}
use c_e.Meta.Reuse.{ReuseDecision, decide}
use c_e.Meta.Fingerprint.{Json, Fields, generate}

pub record Builtins (F : Type 0) : Type 0 where
  pub sum : List F → F
  pub abs : F → F
  -- `float(text)` and `float(integer)`, which can raise
  pub parse : String → Option F
  pub from_int : ℤ → Option F
  pub sorted_fields : Fields F → Fields F
  pub dumps : Json F → Option String
  pub sha256 : String → String
  -- `SequenceMatcher(None, a, b).ratio()`
  pub ratio : String → String → F
  -- `matches.sort(…, reverse=True)` by similarity, score and time
  pub sorted_matches : List (Match F) → List (Match F)

pub record MemoryContext (F : Type 0) : Type 0 where
  pub matching_cases : List (Match F)
  pub reuse : ReuseDecision F

-- What an agent and its memory are built with.
pub record Settings (F : Type 0) : Type 0 where
  pub limits : Limits
  pub fingerprint_version : String
  pub timeout_ms : ℕ
  pub min_trust_threshold : F

module _ {F : Type 0} ⦃o : Float F⦄ (b : Builtins F) (settings : Settings F) where
  -- The context, and the cases that the store keeps. `signature` is the model versions as one text.
  unfoldable pub link :
      F
      → Fields F
      → Fields F
      → Fields F
      → Fields F
      → F
      → F
      → String
      → String
      → Dict Bool
      → List (MemoryCase F)
      → Option (MemoryContext F × List (MemoryCase F))
  link now event features graph_context trust_context novelty_score criticality policy_version
        signature flags cases =
      do
        found ←
            generate b.sorted_fields b.dumps b.sha256 settings.fingerprint_version event features
              graph_context trust_context
        let (matches, kept) =
            lookup_cases b.ratio b.sorted_matches settings.limits now found.fingerprint
              found.material (o.lit 740_000) 5 cases
        some (
          record {
            matching_cases = matches;
            reuse = decide matches novelty_score criticality policy_version signature flags;
          },
          kept,
        )
