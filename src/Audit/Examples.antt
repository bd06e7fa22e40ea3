-- ===== src/Audit/Examples.antt =====
-- An audit log on concrete inputs, with an interpreter of the queries in the place of the database.
use c_e.Common.{
  ℕ, false, String, List, [], ◌∷◌, none, some, ◌≡◌, ◌≢◌, refl, arith, take, filter, all, str_eq,
  str_eq_iff,
}
use c_e.Common.Float.{Micro, micro_float}
use c_e.Trust.Tokens.{ApiCaller}
use c_e.Audit.{
  Payload, Row, Query, Filters, Backend, text, number, found, listed, query_of, reversed,
  write_event, list_events, get_event, row_to_event, is_valid,
}
use c_e.Audit.Clauses.{value_at, satisfies}
use c_e.Audit.Modes.{IsBackend}
use c_e.Audit.Runs.{Write, OwnIds, write_all, memory, database, modes_agree, get_event-write_event}

abbrev interpret : Query → List (Row Micro) → List (Row Micro)
interpret q rows = elim (value_at q.params q.limit_at) [
  | some (number limit) ↦
      take limit (reversed (filter (λ r. all (satisfies q.params r) q.clauses) rows))
  | _ ↦ []
]

instance abbrev plain : Backend String Micro
plain = record { dumps = λ m. m; loads = λ m. m; fetch = interpret }

plain-IsBackend : IsBackend plain
plain-IsBackend = record {
  loads-dumps = λ m. refl;
  by_time_descending = reversed;
  by_time_descending-Rising = λ rows h. refl;
  fetch_lem = λ q rows limit h. ground arith;
}

abbrev anyone : ApiCaller
anyone = record { expected = ""; header = "" }

abbrev payload : String → String → ℕ → Payload String Micro
payload id principal time = record {
  event = record {
    principal_id = principal;
    principal_type = "user";
    event_type = "login";
    action = "read";
    decision = "deny";
    reason = "policy";
    risk_level = 2;
    metadata = "{}";
    correlation_id = "";
    action_class = "";
    execution_mode = "execute";
    capability_maturity = "beta";
    degraded_mode = false;
  };
  event_id = id;
  timestamp = micro_float.lit time;
  signature = "s";
}

abbrev writes : List (Write String Micro)
writes =
    (anyone, payload "e-1" "alice" 1)
    ∷ (anyone, payload "e-2" "bob" 2)
    ∷ (anyone, payload "e-3" "alice" 3)
    ∷ []

abbrev alices : Filters
alices = record {
  principal_id = some "alice";
  event_type = none;
  decision = some "deny";
  correlation_id = some "";
  action_class = none;
}

newest_of_alice :
    list_events anyone 1 alices (write_all writes (database []))
    ≡ listed (payload "e-3" "alice" 3 ∷ [])
unfolding list_events write_all write_event is_valid row_to_event
newest_of_alice = refl

placeholders : (query_of alices 30).params ≡ text "alice" ∷ text "deny" ∷ number 30 ∷ []
unfolding query_of
placeholders = refl

apart : (s t : String) → str_eq s t ≡ false → s ≢ t
apart s t h e = ground (arith, str_eq_iff s t)

own_ids : OwnIds writes
own_ids = (
  (apart "e-1" "e-2" refl, (apart "e-1" "e-3" refl, tt)),
  ((apart "e-2" "e-3" refl, tt), (tt, tt)),
)

modes_agree_example :
    (list_events anyone 30 alices (write_all writes (memory []))
      ≡ list_events anyone 30 alices (write_all writes (database [])))
    × (get_event anyone "e-2" (write_all writes (memory []))
        ≡ get_event anyone "e-2" (write_all writes (database [])))
modes_agree_example =
    modes_agree plain-IsBackend writes anyone 30 alices "e-2" own_ids
      ((refl, (refl, tt)), ((refl, tt), (tt, tt)))

get_event-write_event_example :
    (get_event anyone "e-2"
        (write_event anyone (payload "e-2" "bob" 2) (memory (payload "e-1" "alice" 1 ∷ []))).1
      ≡ found (payload "e-2" "bob" 2))
    × (get_event anyone "e-2"
          (write_event anyone (payload "e-2" "bob" 2) (database (payload "e-1" "alice" 1 ∷ []))).1
        ≡ found (payload "e-2" "bob" 2))
unfolding is_valid
get_event-write_event_example =
    get_event-write_event plain-IsBackend (payload "e-1" "alice" 1 ∷ []) anyone anyone
      (payload "e-2" "bob" 2) refl refl refl refl
