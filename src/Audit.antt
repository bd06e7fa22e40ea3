-- ===== src/Audit.antt =====
-- services/cortex-audit/cortex_audit/main.py: the log of audit events, in memory or in a database.
-- The id, the time and the signature of a new event are arguments, and so are JSON and what the
-- database makes of a query. A new connection pool is not modelled.
pub mod Clauses
pub mod Modes
pub mod Runs
pub mod Examples
use c_e.Common.{
  ℕ, suc, ◌+◌, ◌-◌, Bool, true, false, not, ◌&&◌, ◌||◌, String, List, [], ◌∷◌, ◌++◌, map, Option,
  none, some, if◌then◌else◌, leb, length, take, filter, any, all, is_empty, str_eq, contains,
}
use c_e.Common.Dict.{Dict}
use c_e.Trust.Tokens.{ApiCaller, may_call}

-- `M` is the type of the metadata: a JSON object, or its text in a row of the database.
pub record AuditEvent (M : Type 0) : Type 0 where
  pub principal_id : String
  pub principal_type : String
  pub event_type : String
  pub action : String
  pub decision : String
  pub reason : String
  pub risk_level : ℕ
  pub metadata : M
  pub correlation_id : String
  pub action_class : String
  pub execution_mode : String
  pub capability_maturity : String
  pub degraded_mode : Bool

pub record Payload (M F : Type 0) : Type 0 where
  pub event : AuditEvent M
  pub event_id : String
  pub timestamp : F
  pub signature : String

abbrev pub Row : Type 0 → Type 0
Row F = Payload String F

-- The bounds of the body's fields.
abbrev nonempty : String → Bool
nonempty s = not (str_eq s "")

pub is_valid : {M : Type 0} → AuditEvent M → Bool
is_valid e =
    nonempty e.principal_id
    && nonempty e.principal_type
    && nonempty e.event_type
    && nonempty e.action
    && contains e.decision ("allow" ∷ "deny" ∷ "monitor" ∷ "step_up" ∷ [])
    && nonempty e.reason
    && leb 1 e.risk_level
    && leb e.risk_level 5

-- A value of a query's `$n`.
pub data Param : Type 0 where
  text : String → Param
  number : ℕ → Param

-- `WHERE column = $n AND … ORDER BY timestamp DESC LIMIT $n`
pub record Query : Type 0 where
  pub clauses : List (String × ℕ)
  pub limit_at : ℕ
  pub params : List Param

-- The filters of a request.
pub record Filters : Type 0 where
  pub principal_id : Option String
  pub event_type : Option String
  pub decision : Option String
  pub correlation_id : Option String
  pub action_class : Option String

-- What the service uses of `json` and of the database.
pub record Backend (M F : Type 0) : Type 0 where
  pub dumps : M → String
  pub loads : String → M
  pub fetch : Query → List (Row F) → List (Row F)

-- The events in memory, and the table if there is a connection.
pub record State (M F : Type 0) : Type 0 where
  pub events : List (Payload M F)
  pub table : Option (List (Row F))

pub data Reply (M F : Type 0) : Type 0 where
  -- 422, 403, 404, and an exception of the database
  unprocessable internal_api_auth_required event_not_found failed : Reply M F
  recorded : ℕ → String → String → Reply M F
  listed : List (Payload M F) → Reply M F
  found : Payload M F → Reply M F

abbrev with_metadata : {A B : Type 0} → (A → B) → AuditEvent A → AuditEvent B
with_metadata f e = record {
  principal_id = e.principal_id;
  principal_type = e.principal_type;
  event_type = e.event_type;
  action = e.action;
  decision = e.decision;
  reason = e.reason;
  risk_level = e.risk_level;
  metadata = f e.metadata;
  correlation_id = e.correlation_id;
  action_class = e.action_class;
  execution_mode = e.execution_mode;
  capability_maturity = e.capability_maturity;
  degraded_mode = e.degraded_mode;
}

abbrev converted : {A B F : Type 0} → (A → B) → Payload A F → Payload B F
converted f p = record {
  event = with_metadata f p.event;
  event_id = p.event_id;
  timestamp = p.timestamp;
  signature = p.signature;
}

-- `if value:` of an optional text
abbrev truthy : Option String → Bool
truthy none = false
truthy (some s) = nonempty s

abbrev pub keep_if :
    {M F : Type 0}
    → Option String
    → (AuditEvent M → String)
    → List (Payload M F)
    → List (Payload M F)
keep_if none part es = es
keep_if (some s) part es = if nonempty s then filter (λ p. str_eq (part p.event) s) es else es

abbrev pub reverse_onto {ℓ} : {A : Type ℓ} → List A → List A → List A
reverse_onto [] ys = ys
reverse_onto (x ∷ xs) ys = reverse_onto xs (x ∷ ys)

abbrev pub reversed {ℓ} : {A : Type ℓ} → List A → List A
reversed xs = reverse_onto xs []

-- The events of the list that pass the filters, as the service keeps them in memory.
pub filtered : {M F : Type 0} → Filters → List (Payload M F) → List (Payload M F)
filtered q es =
    keep_if q.action_class (λ e. e.action_class)
      (keep_if q.correlation_id (λ e. e.correlation_id)
        (keep_if q.decision (λ e. e.decision)
          (keep_if q.event_type (λ e. e.event_type)
            (keep_if q.principal_id (λ e. e.principal_id) es))))

-- One `if` that adds a parameter and the clause that names it.
abbrev pub place :
    String → Option String → List (String × ℕ) × List Param → List (String × ℕ) × List Param
place column none acc = acc
place column (some s) (clauses, params) =
    if nonempty s
    then (clauses ++ (column, suc (length params)) ∷ [], params ++ text s ∷ [])
    else (clauses, params)

abbrev pub placed : Filters → List (String × ℕ) × List Param
placed q = place "action_class" q.action_class (
    place "correlation_id" q.correlation_id (
      place "decision" q.decision
        (place "event_type" q.event_type (place "principal_id" q.principal_id ([], [])))))

pub query_of : Filters → ℕ → Query
query_of q limit = record {
  clauses = (placed q).0;
  limit_at = suc (length (placed q).1);
  params = (placed q).1 ++ number limit ∷ [];
}

abbrev pub has_id : {N F : Type 0} → String → Payload N F → Bool
has_id id p = str_eq p.event_id id

abbrev pub first_of : {N F : Type 0} → String → List (Payload N F) → Option (Payload N F)
first_of id [] = none
first_of id (p ∷ ps) = if has_id id p then some p else first_of id ps

-- The primary key refuses a second row of one id.
abbrev insert_row : {F : Type 0} → Row F → List (Row F) → Option (List (Row F))
insert_row r rows = if any (has_id r.event_id) rows then none else some (rows ++ r ∷ [])

module _ {M F : Type 0} ⦃b : Backend M F⦄ where
  pub row_to_event : Row F → Payload M F
  row_to_event = converted b.loads

  abbrev pub row_of : Payload M F → Row F
  row_of = converted b.dumps

  pub write_event : ApiCaller → Payload M F → State M F → Reply M F × State M F
  write_event c p s =
      if not (is_valid p.event)
      then (unprocessable, s)
      else if not (may_call c)
      then (internal_api_auth_required, s)
      else elim s.table [
        | none ↦
            let events = s.events ++ p ∷ [] in
            (recorded (length events) p.event_id p.signature, record s { events = events })
        | some rows ↦ elim (insert_row (row_of p) rows) [
          | none ↦ (failed, s)
          | some rows' ↦
              (recorded (length s.events) p.event_id p.signature, record s { table = some rows' })
        ]
      ]

  pub list_events : ApiCaller → ℕ → Filters → State M F → Reply M F
  unfolding filtered query_of
  list_events c limit q s =
      if not (leb 1 limit && leb limit 200)
      then unprocessable
      else if not (may_call c)
      then internal_api_auth_required
      else elim s.table [
        | none ↦ listed (take limit (reversed (filtered q s.events)))
        | some rows ↦ listed (map row_to_event (b.fetch (query_of q limit) rows))
      ]

  pub get_event : ApiCaller → String → State M F → Reply M F
  get_event c id s = if not (may_call c) then internal_api_auth_required else elim s.table [
    | none ↦ elim (first_of id s.events) [ none ↦ event_not_found | some p ↦ found p ]
    | some rows ↦ elim (first_of id rows) [
      | none ↦ event_not_found
      | some r ↦ found (row_to_event r)
    ]
  ]
