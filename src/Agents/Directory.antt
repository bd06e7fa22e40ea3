-- ===== src/Agents/Directory.antt =====
-- `ADAgent` of services/cortex-agents/cortex_agents/agents/ad.py. What BloodHound and the directory
-- answer is the record `Setting`; a handler gives its result and what it writes to the directory,
-- or none where the task lacks a key.
pub mod Reads
pub mod Clearance
pub mod Dispatch
use c_e.Common.{
  ℕ, Bool, true, false, not, ◌&&◌, ◌||◌, String, List, [], ◌∷◌, Option, none, some, if◌then◌else◌,
  ltb, leb, length, any, is_empty, contains, str_eq, ◌==◌,
}
use c_e.Common.Int.{pos}
use c_e.Common.Dict.{Dict, lookup, get_or}
use c_e.Common.Options.{◌>>=◌}
use c_e.Core.Contracts.{CapabilityMaturity, ExecutionMode}
use c_e.Meta.Fingerprint.{
  Json, null, flag, integer, text, items, object, Items, Fields, blank, field,
}
use c_e.Agents.{AgentResult, error_result}
use c_e.Agents.Guard.{
  BloodHound, GroupRisk, Exposure, check_group_membership_risk, check_attack_path, get_tier0_assets,
  get_resource_exposure, get_blast_radius,
}
use c_e.Agents.Verifier.{MemberOf, Verification, verify_group_membership}
use c_e.Agents.Kerberos.{AccountFlags, check_spn_kerberoastable, check_delegation_risks}

-- The answers of a connected directory.
pub record Ldap : Type 0 where
  pub connected : Bool
  pub modify_succeeds : Bool
  -- `memberOf` of an account, after each wait
  pub member_of : String → ℕ → Option MemberOf
  pub delegation : String → List AccountFlags
  -- The texts of the deleted objects beside a name.
  pub deleted_objects : String → List String
  pub object_acl : String → Option String
  pub changes : String → List String

pub record Setting : Type 0 where
  pub guard : Option BloodHound
  pub ldap : Option Ldap
  pub ticket : String → Option ℕ
  -- Equality, and containment, without regard to case.
  pub same : String → String → Bool
  pub mentions : String → String → Bool
  pub char_count : String → ℕ

pub data Write : Type 0 where
  add_member : (group_dn account_dn : String) → Write
  undelete : String → Write

abbrev pub Task : Type 0
Task = Dict String

abbrev pub Outcome : Type 0 → Type 0
Outcome F = Option (AgentResult F × List Write)

abbrev is_verified : Option Verification → Bool
is_verified none = false
is_verified (some check) = check.is_consistent

module _ (env : Setting) where
  -- Whether the modification succeeds, and what it writes: nothing without a connection.
  abbrev pub modify : Write → Bool × List Write
  modify write = elim env.ldap [
    | none ↦ (false, [])
    | some ldap ↦ if ldap.connected then (ldap.modify_succeeds, write ∷ []) else (false, [])
  ]

  abbrev pub verified_after : Bool → String → String → Option Verification
  verified_after success account_dn group_dn = elim env.ldap [
    | none ↦ none
    | some ldap ↦
        if success
        then some (verify_group_membership env.same (ldap.member_of account_dn) group_dn true)
        else none
  ]

  abbrev pub delegation_risks : Task → List String
  delegation_risks task = elim env.ldap [
    | none ↦ []
    | some ldap ↦ check_delegation_risks (ldap.delegation (get_or "account_dn" "" task))
  ]

  abbrev pub rc4_kerberoastable : String → Bool
  rc4_kerberoastable spn = elim (check_spn_kerberoastable env.ticket spn).encryption_type [
    | none ↦ false
    | some kind ↦ kind == 23
  ]

module _ {F : Type 0} where
  abbrev pub refused : String → Outcome F
  refused reason = some (error_result "ad" reason, [])

  -- A result that asks for no approval.
  abbrev done : Bool → String → Fields F → ExecutionMode → CapabilityMaturity → AgentResult F
  done success action output mode maturity = record {
    agent_id = "ad";
    success = success;
    output = output;
    reasoned = true;
    actions_taken = action ∷ [];
    requires_approval = false;
    approval_payload = none;
    execution_mode = mode;
    capability_maturity = maturity;
  }

  abbrev read_done : Bool → String → Fields F → Outcome F
  read_done success action output =
      some (done success action output ExecutionMode.execute CapabilityMaturity.preprod_ready, [])

  abbrev count_of : ℕ → Json F
  count_of n = integer (pos n)

  abbrev texts : List String → Items F
  texts [] = Items.end
  texts (s ∷ rest) = Items.item (text s) (texts rest)

  abbrev maybe_text : Option String → Json F
  maybe_text none = null
  maybe_text (some s) = text s

  abbrev membership_payload : String → String → GroupRisk → Fields F
  membership_payload account_dn group_dn risk = field "action" (text "add_to_group") (
      field "account_dn" (text account_dn) (
        field "group_dn" (text group_dn) (
          field "risk_level" (count_of risk.risk_level)
            (field "path" (maybe_text risk.path) blank))))

  -- The guard's risk is 4 or 5.
  abbrev pub blocked : String → String → GroupRisk → AgentResult F
  blocked account_dn group_dn risk = record {
    agent_id = "ad";
    success = false;
    output =
        field "blocked" (flag true)
          (field "reason" (text risk.reason) (field "risk_level" (count_of risk.risk_level) blank));
    reasoned = true;
    actions_taken = [];
    requires_approval = risk.risk_level == 4;
    approval_payload =
        if risk.risk_level == 4 then some (membership_payload account_dn group_dn risk) else none;
    execution_mode = ExecutionMode.execute;
    capability_maturity = CapabilityMaturity.beta;
  }

  abbrev verification_object : Option Verification → Json F
  verification_object none = null
  verification_object (some check) = object (
      field "is_consistent" (flag check.is_consistent) (
        field "inconsistencies" (items (texts check.inconsistencies))
          (field "replication_lag_estimate_s" (count_of check.replication_lag_estimate_s) blank)))

  module _ (env : Setting) where
    -- From the check of the guard on.
    unfoldable pub add_member_now : String → String → AgentResult F × List Write
    add_member_now account_dn group_dn =
        let (success, writes) = modify env (add_member group_dn account_dn) in
        let check = verified_after env success account_dn group_dn in
        (
          done success "add_to_group"
              (field "account_dn" (text account_dn) (
                field "group_dn" (text group_dn) (
                  field "verified" (flag (is_verified check))
                    (field "verification" (verification_object check) blank))))
              ExecutionMode.execute CapabilityMaturity.beta,
          writes,
        )

    unfoldable pub guarded_add : String → String → AgentResult F × List Write
    guarded_add account_dn group_dn = elim env.guard [
      | none ↦ add_member_now account_dn group_dn
      | some guard ↦
          let risk = check_group_membership_risk guard group_dn in
          if leb 4 risk.risk_level
          then (blocked account_dn group_dn risk, [])
          else add_member_now account_dn group_dn
    ]

    unfoldable pub add_to_group : Task → Outcome F
    add_to_group task = do
      account_dn ← lookup "account_dn" task
      group_dn ← lookup "group_dn" task
      some (guarded_add account_dn group_dn)

    unfoldable pub create_service_account : Task → Outcome F
    create_service_account task =
        let spn = get_or "spn" "" task in
        lookup "account_name" task >>= λ account. lookup "password" task >>= λ password.
        lookup "domain" task >>= λ domain.
        if ltb (env.char_count password) 25
        then refused "password_too_short"
        else if rc4_kerberoastable env spn
        then refused "rc4_kerberoastable"
        else some (
          done true "create_service_account"
              (field "account" (text account) (
                field "spn" (text spn) (
                  field "kerberos_validated" (flag true)
                    (field "delegation_risks" (items (texts (delegation_risks env task))) blank))))
              ExecutionMode.prepare CapabilityMaturity.beta,
          [],
        )

    -- The name must be in the recycle bin; without a parent nothing is written.
    unfoldable pub restore_deleted : Task → Outcome F
    restore_deleted task = do
      object_dn ← lookup "object_dn" task
      elim env.ldap [
        | none ↦ refused "LDAP not initialized"
        | some ldap ↦
            if not ldap.connected
            then refused "LDAP not initialized"
            else if not (any (env.mentions object_dn) (ldap.deleted_objects object_dn))
            then refused "not_in_recycle_bin"
            else let asked = not (str_eq (get_or "parent_dn" "" task) "") in
              let success = asked && ldap.modify_succeeds in
              some (
                done success "restore_deleted"
                    (field "restored_dn" (text object_dn) (field "success" (flag success) blank))
                    ExecutionMode.prepare CapabilityMaturity.preprod_ready,
                if asked then undelete object_dn ∷ [] else [],
              )
      ]
