-- ===== src/Meta/Outcomes.antt =====
-- How an evaluation can end: with a decision on what was read, with the fallback, or raising.
use c_e.Common.{
  ℕ, Bool, List, [], ◌∷◌, map, Option, none, some, ◌≡◌, refl, ◌↔◌, ◌⊎◌, inl, inr, arith,
  Option-cases, none-ne-some, sym,
}
use c_e.Common.Float.{Float}
use c_e.Common.Options.{map_option, >>=-eq-some, some_inj}
use c_e.Meta.{MemoryCase}
use c_e.Meta.Trust.{TrustComputation, compute_batch}
use c_e.Meta.Fingerprint.{get_field}
use c_e.Meta.Linker.{Builtins, Settings, MemoryContext}
use c_e.Meta.Messages.{
  AgentMessage, Reading, EventFacts, read, event_facts, extract_numeric_signal, read_message,
}
use c_e.Meta.Decision.{
  MetaDecisionResult, World, EvaluateRequest, decide_on, with_memory, with_facts, with_readings,
  attempt, fallback_result, fallback, evaluate,
}
use c_e.Meta.Scores.{signals_in}

module _ {F : Type 0} ⦃o : Float F⦄ (b : Builtins F) (settings : Settings F) where
  read_signal :
      (m : AgentMessage F) (r : Reading F)
      → read_message b m ≡ some r
      → extract_numeric_signal b m ≡ some r.signal
  unfolding read_message
  read_signal m r e = ground arith

  read_signals :
      (ms : List (AgentMessage F)) (rs : List (Reading F))
      → map_option (read_message b) ms ≡ some rs
      → map_option (extract_numeric_signal b) ms ≡ some (signals_in b settings rs)
  read_signals [] rs e = ground arith
  read_signals (m ∷ ms) rs e =
      let (r, at, rest) = >>=-eq-some (read_message b m) _ e in
      let (rs', later, made) = >>=-eq-some (map_option (read_message b) ms) _ rest in
      ground (arith, read_signal m r at, read_signals ms rs' later)

  -- The result is a decision on the messages as read, on the trust computed from them, and on what
  -- the event and the memory say.
  pub record Decided (elapsed_ms : ℕ) (req : EvaluateRequest F) (world : World F)
      (r : MetaDecisionResult F) : Type 0 where
    pub readings : List (Reading F)
    pub facts : EventFacts F
    pub context : MemoryContext F
    pub deep : Bool
    pub are_read : map_option (read_message b) req.agent_messages ≡ some readings
    pub result :
        r
        ≡ decide_on b settings elapsed_ms readings
            (compute_batch b.sum (map (λ x. x.input) readings) world.profiles).0
            req.model_scores
            facts
            context
            deep

  -- The result is the fallback on the signals.
  pub record FellBack (req : EvaluateRequest F) (r : MetaDecisionResult F) : Type 0 where
    pub signals : List F
    pub are_read : map_option (extract_numeric_signal b) req.agent_messages ≡ some signals
    pub result : r ≡ fallback_result b settings signals

  memory_decides :
      (elapsed_ms : ℕ) (req : EvaluateRequest F) (readings : List (Reading F))
      (trust : TrustComputation F) (facts : EventFacts F) (world : World F)
      (found : Option (MemoryContext F × List (MemoryCase F))) (r : MetaDecisionResult F)
      → (with_memory b settings elapsed_ms req readings trust facts world found).0 ≡ some r
      → (context : MemoryContext F) × (deep : Bool) × (r
          ≡ decide_on b settings elapsed_ms readings trust req.model_scores facts context deep)
  unfolding with_memory
  memory_decides elapsed_ms req readings trust facts world none r e = absurd (none-ne-some e)
  memory_decides elapsed_ms req readings trust facts world (some (context, cases)) r e =
      let (graph, _, rest) =
        >>=-eq-some (read b (get_field "graph_score" req.event) (o.lit 0)) _ e in
      let (temporal, _, made) =
        >>=-eq-some (read b (get_field "temporal_score" req.event) (o.lit 0)) _ rest in
      (context, _, sym (some_inj made))

  facts_decide :
      (now : F) (elapsed_ms : ℕ) (req : EvaluateRequest F) (readings : List (Reading F))
      (trust : TrustComputation F) (world : World F) (facts : Option (EventFacts F))
      (r : MetaDecisionResult F)
      → (with_facts b settings now elapsed_ms req readings trust world facts).0 ≡ some r
      → (facts : EventFacts F) × (context : MemoryContext F) × (deep : Bool) × (r
          ≡ decide_on b settings elapsed_ms readings trust req.model_scores facts context deep)
  unfolding with_facts
  facts_decide now elapsed_ms req readings trust world none r e = absurd (none-ne-some e)
  facts_decide now elapsed_ms req readings trust world (some facts) r e =
      let (context, deep, made) = memory_decides elapsed_ms req readings trust facts world _ r e in
      (facts, context, deep, made)

  readings_decide :
      (now : F) (elapsed_ms : ℕ) (req : EvaluateRequest F) (world : World F)
      (readings : Option (List (Reading F))) (r : MetaDecisionResult F)
      → map_option (read_message b) req.agent_messages ≡ readings
      → (with_readings b settings now elapsed_ms req world readings).0 ≡ some r
      → Decided elapsed_ms req world r
  unfolding with_readings
  readings_decide now elapsed_ms req world none r are e = absurd (none-ne-some e)
  readings_decide now elapsed_ms req world (some readings) r are e =
      let (trust, profiles) = compute_batch b.sum (map (λ x. x.input) readings) world.profiles in
      let (facts, context, deep, made) =
        facts_decide now elapsed_ms req readings trust (record world { profiles = profiles })
          (event_facts b req.event) r e in
      record {
        readings = readings;
        facts = facts;
        context = context;
        deep = deep;
        are_read = are;
        result = made;
      }

  attempt_decides :
      (now : F) (elapsed_ms : ℕ) (req : EvaluateRequest F) (world : World F)
      (r : MetaDecisionResult F)
      → (attempt b settings now elapsed_ms req world).0 ≡ some r
      → Decided elapsed_ms req world r
  unfolding attempt
  attempt_decides now elapsed_ms req world r e = readings_decide now elapsed_ms req world _ r refl e

  -- An evaluation that returns has decided, or fell back.
  pub evaluate_cases :
      (now : F) (elapsed_ms : ℕ) (req : EvaluateRequest F) (world : World F)
      (r : MetaDecisionResult F)
      → (evaluate b settings now elapsed_ms req world).0 ≡ some r
      → Decided elapsed_ms req world r ⊎ FellBack req r
  unfolding evaluate fallback
  evaluate_cases now elapsed_ms req world r e =
      elim (Option-cases (attempt b settings now elapsed_ms req world).0) [
        | inl raised ↦
            let (signals, are, made) =
              >>=-eq-some (map_option (extract_numeric_signal b) req.agent_messages)
                (λ signals. some (fallback_result b settings signals)) (ground arith) in
            inr record { signals = signals; are_read = are; result = sym (some_inj made) }
        | inr (x, returned) ↦ inl (attempt_decides now elapsed_ms req world r (ground arith))
      ]

  -- An evaluation raises, past its own `except` block, if and only if the signal of one of the
  -- messages cannot be read as a number. A missing sender, an event or a payload that cannot be
  -- read, and every other value of a message end in a result.
  pub evaluate_raises_iff :
      (now : F) (elapsed_ms : ℕ) (req : EvaluateRequest F) (world : World F)
      → ((evaluate b settings now elapsed_ms req world).0 ≡ none)
        ↔ (map_option (extract_numeric_signal b) req.agent_messages ≡ none)
  unfolding evaluate fallback
  evaluate_raises_iff now elapsed_ms req world =
      elim (Option-cases (attempt b settings now elapsed_ms req world).0) [
        | inl raised ↦
            elim (Option-cases (map_option (extract_numeric_signal b) req.agent_messages)) [
              | inl unread ↦ (λ e. unread, λ e. ground arith)
              | inr (signals, are) ↦ (λ e. ground arith, λ e. ground arith)
            ]
        | inr (x, returned) ↦
            let decided = attempt_decides now elapsed_ms req world x returned in
            let are = read_signals req.agent_messages decided.readings decided.are_read in
            (λ e. ground arith, λ e. ground arith)
      ]
