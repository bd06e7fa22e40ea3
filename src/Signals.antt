-- ===== src/Signals.antt =====
-- The services that derive signals from what accounts do: services/cortex-admin-anomaly,
-- services/cortex-insider-decay and services/cortex-priority-engine. The first two keep the events
-- of each account in a dict of lists, which is modelled here.
pub mod Admin
pub mod Decay
pub mod Priority
pub mod Replay
pub mod Bounds
pub mod Examples
use c_e.Common.{
  ℕ, ◌*◌, Bool, true, false, String, List, [], ◌∷◌, ◌++◌, ◌≡◌, refl, sym, ap, ◌∙◌, arith,
  if◌then◌else◌, filter, length, str_eq, str_eq_iff, str_eq_refl, Bool-cases, inl, inr, subst,
  Option, none, some,
}
use c_e.Common.Dict.{Dict, lookup, get_or, insert, lookup-insert}
use c_e.Common.Int.{pos}
use c_e.Common.Float.{Float}

-- `histories[event.account].append(event)` on a `defaultdict(list)`
abbrev pub ingest : {E : Type 0} → (E → String) → E → Dict (List E) → Dict (List E)
ingest account e d = insert (account e) (get_or (account e) [] d ++ e ∷ []) d

pub ingest_all : {E : Type 0} → (E → String) → List E → Dict (List E) → Dict (List E)
ingest_all account [] d = d
ingest_all account (e ∷ es) d = ingest_all account es (ingest account e d)

module _ {F : Type 0} ⦃o : Float F⦄ where
  -- A literal with six decimals left out.
  abbrev pub units : ℕ → F
  units n = o.lit (n * 1_000_000)

  abbrev pub int : ℕ → F
  int n = o.of_int (pos n)

  abbrev pub at_least : F → ℕ → Bool
  at_least x n = o.le (units n) x
