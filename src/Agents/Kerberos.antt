-- ===== src/Agents/Kerberos.antt =====
-- `KerberosValidator` of services/cortex-agents/cortex_agents/ad/kerberos_validator.py. The
-- encryption type of the ticket that the library gets for a service is an argument: none where the
-- library is missing or raises.
use c_e.Common.{
  ℕ, ◌/◌, ◌%◌, ◌^◌, Bool, true, false, String, List, [], ◌∷◌, ◌++◌, Option, none, some,
  if◌then◌else◌, str_eq, any, ◌==◌,
}

pub record SpnCheck : Type 0 where
  pub is_kerberoastable : Bool
  pub encryption_type : Option ℕ
  pub risk_level : ℕ

-- What the search returns of an account.
pub record AccountFlags : Type 0 where
  pub user_account_control : ℕ
  pub allowed_to_delegate : Bool
  pub allowed_to_act : Bool

abbrev no_ticket : SpnCheck
no_ticket = record { is_kerberoastable = false; encryption_type = none; risk_level = 0 }

abbrev pub check_spn_kerberoastable : (String → Option ℕ) → String → SpnCheck
check_spn_kerberoastable ticket spn = if str_eq spn "" then no_ticket else elim (ticket spn) [
  | none ↦ no_ticket
  | some kind ↦ record {
    is_kerberoastable = true;
    encryption_type = some kind;
    risk_level = if kind == 23 then 5 else if kind == 18 then 2 else 3;
  }
]

-- `uac & 0x80000`
abbrev trusted_for_delegation : AccountFlags → Bool
trusted_for_delegation flags = flags.user_account_control / 2 ^ 19 % 2 == 1

abbrev risk_if : Bool → String → List String
risk_if test risk = if test then risk ∷ [] else []

-- Each kind of risk at most once, in alphabetical order.
unfoldable pub check_delegation_risks : List AccountFlags → List String
check_delegation_risks accounts =
    risk_if (any (λ a. a.allowed_to_delegate) accounts) "constrained_delegation_configured"
    ++ risk_if (any (λ a. a.allowed_to_act) accounts) "rbcd_configured"
    ++ risk_if (any trusted_for_delegation accounts) "unconstrained_delegation"
