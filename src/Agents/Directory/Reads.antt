-- ===== src/Agents/Directory/Reads.antt =====
-- `ADAgent` of agents/ad.py: the handlers that write nothing, and the dispatch of a task to its
-- handler. What the drift scan finds is an argument, as the scan is not modelled.
use c_e.Common.{
  ℕ, true, false, not, ◌||◌, String, List, [], ◌∷◌, Option, none, some, if◌then◌else◌, leb, length,
  take, filter, str_eq,
}
use c_e.Common.Dict.{lookup, get_or}
use c_e.Common.Options.{◌>>=◌}
use c_e.Core.Contracts.{CapabilityMaturity, ExecutionMode}
use c_e.Meta.Fingerprint.{
  Json, null, flag, integer, text, items, object, Items, Fields, blank, field,
}
use c_e.Agents.Guard.{
  BloodHound, PathCheck, GroupRisk, RiskyPath, Exposure, check_group_membership_risk,
  check_attack_path, get_tier0_assets, get_resource_exposure, get_blast_radius,
}
use c_e.Agents.Kerberos.{check_spn_kerberoastable}
use c_e.Agents.Directory.{
  Ldap, Setting, Task, Outcome, refused, done, read_done, count_of, texts, maybe_text,
  delegation_risks, add_to_group, create_service_account, restore_deleted,
}

module _ {F : Type 0} where
  abbrev pub maybe_count : Option ℕ → Json F
  maybe_count none = null
  maybe_count (some n) = count_of n

  abbrev pub path_fields : PathCheck → Fields F → Fields F
  path_fields check rest = field "has_path" (flag check.has_path) (
      field "path_count" (integer check.path_count) (
        field "shortest" (maybe_text check.shortest)
          (field "risk_level" (count_of check.risk_level) rest)))

  abbrev pub summary_of : String → String → PathCheck → Fields F
  summary_of source target check = field "source" (text source) (
      field "target" (text target) (
        field "summary"
          (text (if check.has_path then "direct_or_indirect_path_to_target" else "no_path"))
          (path_fields check blank)))

  abbrev pub risky_items : List RiskyPath → Items F
  risky_items [] = Items.end
  risky_items (p ∷ ps) =
      Items.item (object (field "target" (text p.target) (path_fields p.check blank)))
        (risky_items ps)

  abbrev pub exposure_fields : String → String → String → Exposure → Fields F
  exposure_fields name paths_name object_id exposure = field name (text object_id) (
      field "reachable_tier0_assets" (count_of exposure.reachable_tier0_assets) (
        field "paths" (items (risky_items exposure.paths))
          (field "risk_level" (count_of exposure.risk_level) blank)))

  abbrev pub risk_fields : GroupRisk → Fields F
  risk_fields risk = field "risk_level" (count_of risk.risk_level) (
      field "reason" (text risk.reason)
        (field "action" (text risk.action) (field "path" (maybe_text risk.path) blank)))

  -- A result that asks for approval from level 4 on, with its output as the payload.
  abbrev pub assessed : ℕ → String → Fields F → Outcome F
  assessed level action output = some (
    record (done true action output ExecutionMode.execute CapabilityMaturity.preprod_ready) {
      requires_approval = leb 4 level;
      approval_payload = if leb 4 level then some output else none;
    },
    [],
  )

  module _ (env : Setting) where
    abbrev pub with_guard : (BloodHound → Outcome F) → Outcome F
    with_guard handle = elim env.guard [
      | none ↦ refused "BloodHound guard not initialized"
      | some guard ↦ handle guard
    ]

    abbrev pub with_ldap : (Ldap → Outcome F) → Outcome F
    with_ldap handle = elim env.ldap [
      | none ↦ refused "LDAP not initialized"
      | some ldap ↦ handle ldap
    ]

    abbrev pub get_attack_path : Task → Outcome F
    get_attack_path task = with_guard λ guard. lookup "source" task >>= λ source.
        lookup "target" task >>= λ target.
        read_done true "get_attack_path"
          (summary_of source target (check_attack_path guard source target))

    abbrev pub blast_radius_of : Task → Outcome F
    blast_radius_of task = with_guard λ guard. lookup "entity_id" task >>= λ entity_id.
        read_done true "get_blast_radius" (
          exposure_fields "entity_id" "critical_paths" entity_id (get_blast_radius guard entity_id))

    abbrev pub visualize_exposure : Task → Outcome F
    visualize_exposure task = with_guard λ guard. lookup "object_id" task >>= λ object_id.
        read_done true "visualize_exposure"
          (exposure_fields "object_id" "paths" object_id (get_resource_exposure guard object_id))

    abbrev pub tier0_assets : Task → Outcome F
    tier0_assets task = with_guard λ guard.
        let assets = get_tier0_assets guard in
        read_done true "get_tier0_assets" (
          field "tier0_assets" (items (texts assets))
            (field "count" (count_of (length assets)) blank))

    -- A question on tier 0 or administrators, or with a target, is about a path.
    abbrev pub answered : String → String → String → Fields F → Outcome F
    answered subject question kind rest = read_done true "answer_privilege_question" (
        field "subject" (text subject)
          (field "question" (text question) (field "answer_type" (text kind) rest)))

    abbrev pub answer_privilege_question : Task → Outcome F
    answer_privilege_question task = with_guard λ guard. lookup "subject" task >>= λ subject.
        lookup "question" task >>= λ question.
        let target = get_or "target" "" task in
        let resolved = if str_eq target "" then "tier0" else target in
        let on_path =
          env.mentions "tier 0" question
          || env.mentions "admin" question
          || not (str_eq target "") in
        answered subject question (if on_path then "privilege_path" else "resource_exposure") (
          if on_path
          then summary_of subject resolved (check_attack_path guard subject resolved)
          else exposure_fields "object_id" "paths" subject (get_resource_exposure guard subject))

    abbrev pub validate_group_membership : Task → Outcome F
    validate_group_membership task = with_guard λ guard. lookup "group_dn" task >>= λ group_dn.
        let risk = check_group_membership_risk guard group_dn in
        assessed risk.risk_level "validate_group_membership" (risk_fields risk)

    abbrev pub validate_service_account : Task → Outcome F
    validate_service_account task =
        let spn = get_or "spn" "" task in
        let check = check_spn_kerberoastable env.ticket spn in
        assessed check.risk_level "validate_service_account" (
          field "spn" (text spn) (
            field "is_kerberoastable" (flag check.is_kerberoastable) (
              field "encryption_type" (maybe_count check.encryption_type) (
                field "risk_level" (count_of check.risk_level) (
                  field "delegation_risks" (items (texts (delegation_risks env task))) (
                    field "password_length" (count_of (env.char_count (get_or "password" "" task)))
                      (field "password_policy_ok"
                        (elim (lookup "password" task) [
                          | none ↦ null
                          | some password ↦ flag (leb 25 (env.char_count password))
                        ])
                        blank)))))))

    abbrev pub get_object_acl : Task → Outcome F
    get_object_acl task = with_ldap λ ldap. lookup "dn" task >>= λ dn. elim (ldap.object_acl dn) [
      | none ↦ read_done false "get_object_acl" (field "dn" (text dn) (field "acl" null blank))
      | some acl ↦
          read_done true "get_object_acl" (field "dn" (text dn) (field "acl" (text acl) blank))
    ]

    abbrev pub listed : String → String → String → List String → Outcome F
    listed action name base_dn found = read_done true action (
        field "base_dn" (text base_dn) (
          field "count" (count_of (length found))
            (field name (items (texts (take 50 found))) blank)))

    abbrev pub get_deleted_objects : Task → Outcome F
    get_deleted_objects task = with_ldap λ ldap. lookup "base_dn" task >>= λ base_dn.
        listed "get_deleted_objects" "objects" base_dn (ldap.deleted_objects base_dn)

    abbrev pub dirsync_changes : Task → Outcome F
    dirsync_changes task = with_ldap λ ldap. lookup "base_dn" task >>= λ base_dn.
        listed "dirsync_changes" "changes" base_dn (ldap.changes base_dn)

    -- The severities of the drifts that the scan finds.
    abbrev pub run_drift_scan : List ℕ → Task → Outcome F
    run_drift_scan severities task = elim env.ldap [
      | none ↦ refused "DriftDetector not initialized"
      | some ldap ↦ lookup "domain_dn" task >>= λ domain_dn. some (
        done true "drift_scan"
            (field "drifts_found" (count_of (length severities))
              (field "critical_count" (count_of (length (filter (leb 4) severities))) blank))
            ExecutionMode.prepare CapabilityMaturity.beta,
        [],
      )
    ]

    -- The table of handlers; a task of another type is refused.
    unfoldable pub execute : List ℕ → Task → Outcome F
    execute severities task =
        let type = get_or "type" "" task in
        let is = str_eq type in
        if is "add_to_group"
        then add_to_group env task
        else if is "create_service_account"
        then create_service_account env task
        else if is "restore_deleted"
        then restore_deleted env task
        else if is "create_user"
            || is "disable_account"
            || is "remove_from_group"
            || is "reset_password"
            || is "move_to_ou"
        then refused "not_implemented"
        else if is "run_drift_scan"
        then run_drift_scan severities task
        else if is "get_attack_path"
        then get_attack_path task
        else if is "get_blast_radius"
        then blast_radius_of task
        else if is "answer_privilege_question"
        then answer_privilege_question task
        else if is "visualize_exposure"
        then visualize_exposure task
        else if is "get_tier0_assets"
        then tier0_assets task
        else if is "validate_group_membership"
        then validate_group_membership task
        else if is "validate_service_account"
        then validate_service_account task
        else if is "get_object_acl"
        then get_object_acl task
        else if is "get_deleted_objects"
        then get_deleted_objects task
        else if is "dirsync_changes"
        then dirsync_changes task
        else refused "unknown_task"
