-- ===== src/Agents/Directory/Dispatch.antt =====
-- No task writes to the directory what is not permitted.
use c_e.Common.{ℕ, Bool, false, String, List, none, some, ◌≡◌, refl, All, arith, leb, if◌then◌else◌}
use c_e.Common.Dict.{lookup}
use c_e.Common.Options.{by_if, by_option}
use c_e.Agents.Guard.{BloodHound, check_group_membership_risk}
use c_e.Agents.Directory.{Ldap, Setting, Task, Outcome, refused, guarded_add, add_member_now}
use c_e.Agents.Directory.Reads.{
  get_attack_path, blast_radius_of, visualize_exposure, tier0_assets, answer_privilege_question,
  validate_group_membership, validate_service_account, get_object_acl, get_deleted_objects,
  dirsync_changes, run_drift_scan, execute,
}
use c_e.Agents.Directory.Clearance.{
  Permitted, writes_of, AreAllowed, bind-AreAllowed, add_to_group-AreAllowed,
  create_service_account-AreAllowed, restore_deleted-AreAllowed,
}

module _ (F : Type 0) (env : Setting) where
  guard_only :
      (f : BloodHound → Outcome F) (x : Outcome F)
      → AreAllowed F env x
      → ((guard : BloodHound) → AreAllowed F env (f guard))
      → AreAllowed F env (elim env.guard [ none ↦ x | some guard ↦ f guard ])
  guard_only f x h k = by_option (AreAllowed F env) env.guard x f (λ e. h) (λ guard e. k guard)

  ldap_only :
      (f : Ldap → Outcome F) (x : Outcome F)
      → AreAllowed F env x
      → ((ldap : Ldap) → AreAllowed F env (f ldap))
      → AreAllowed F env (elim env.ldap [ none ↦ x | some ldap ↦ f ldap ])
  ldap_only f x h k = by_option (AreAllowed F env) env.ldap x f (λ e. h) (λ ldap e. k ldap)

  get_attack_path-AreAllowed : (task : Task) → AreAllowed F env (get_attack_path env task)
  unfolding AreAllowed
  get_attack_path-AreAllowed task = guard_only _ _ tt λ found.
      bind-AreAllowed F env (lookup "source" task) _
        λ source _. bind-AreAllowed F env (lookup "target" task) _ λ target _. tt

  blast_radius_of-AreAllowed : (task : Task) → AreAllowed F env (blast_radius_of env task)
  unfolding AreAllowed
  blast_radius_of-AreAllowed task =
      guard_only _ _ tt λ found. bind-AreAllowed F env (lookup "entity_id" task) _ λ entity_id _. tt

  visualize_exposure-AreAllowed : (task : Task) → AreAllowed F env (visualize_exposure env task)
  unfolding AreAllowed
  visualize_exposure-AreAllowed task =
      guard_only _ _ tt λ found. bind-AreAllowed F env (lookup "object_id" task) _ λ object_id _. tt

  validate_group_membership-AreAllowed :
      (task : Task) → AreAllowed F env (validate_group_membership env task)
  unfolding AreAllowed
  validate_group_membership-AreAllowed task =
      guard_only _ _ tt λ found. bind-AreAllowed F env (lookup "group_dn" task) _ λ group_dn _. tt

  get_deleted_objects-AreAllowed : (task : Task) → AreAllowed F env (get_deleted_objects env task)
  unfolding AreAllowed
  get_deleted_objects-AreAllowed task =
      ldap_only _ _ tt λ found. bind-AreAllowed F env (lookup "base_dn" task) _ λ base_dn _. tt

  dirsync_changes-AreAllowed : (task : Task) → AreAllowed F env (dirsync_changes env task)
  unfolding AreAllowed
  dirsync_changes-AreAllowed task =
      ldap_only _ _ tt λ found. bind-AreAllowed F env (lookup "base_dn" task) _ λ base_dn _. tt

  tier0_assets-AreAllowed : (task : Task) → AreAllowed F env (tier0_assets env task)
  unfolding AreAllowed
  tier0_assets-AreAllowed task = guard_only _ _ tt λ found. tt

  answer-AreAllowed : (task : Task) → AreAllowed F env (answer_privilege_question env task)
  unfolding AreAllowed
  answer-AreAllowed task = guard_only _ _ tt λ found.
      bind-AreAllowed F env (lookup "subject" task) _
        λ subject _. bind-AreAllowed F env (lookup "question" task) _ λ question _. tt

  get_object_acl-AreAllowed : (task : Task) → AreAllowed F env (get_object_acl env task)
  unfolding AreAllowed
  get_object_acl-AreAllowed task = ldap_only _ _ tt λ ldap.
      bind-AreAllowed F env (lookup "dn" task) _
        λ dn _. by_option (AreAllowed F env) (ldap.object_acl dn) _ _ (λ e. tt) (λ acl e. tt)

  run_drift_scan-AreAllowed :
      (severities : List ℕ) (task : Task) → AreAllowed F env (run_drift_scan env severities task)
  unfolding AreAllowed
  run_drift_scan-AreAllowed severities task =
      ldap_only _ _ tt λ ldap. bind-AreAllowed F env (lookup "domain_dn" task) _ λ domain_dn _. tt

  refused-AreAllowed : (reason : String) → AreAllowed F env (refused reason)
  unfolding AreAllowed
  refused-AreAllowed reason = tt

  validate_service_account-AreAllowed :
      (task : Task) → AreAllowed F env (validate_service_account env task)
  unfolding AreAllowed
  validate_service_account-AreAllowed task = tt

  either :
      (b : Bool) (x y : Outcome F)
      → AreAllowed F env x
      → AreAllowed F env y
      → AreAllowed F env (if b then x else y)
  either b x y h k = by_if (AreAllowed F env) b x y h k

  execute-AreAllowed :
      (severities : List ℕ) (task : Task) → AreAllowed F env (execute env severities task)
  unfolding execute
  execute-AreAllowed severities task = either _ _ _ (add_to_group-AreAllowed F env task) (
      either _ _ _ (create_service_account-AreAllowed F env task) (
        either _ _ _ (restore_deleted-AreAllowed F env task) (
          either _ _ _ (refused-AreAllowed "not_implemented") (
            either _ _ _ (run_drift_scan-AreAllowed severities task) (
              either _ _ _ (get_attack_path-AreAllowed task) (
                either _ _ _ (blast_radius_of-AreAllowed task) (
                  either _ _ _ (answer-AreAllowed task) (
                    either _ _ _ (visualize_exposure-AreAllowed task) (
                      either _ _ _ (tier0_assets-AreAllowed task) (
                        either _ _ _ (validate_group_membership-AreAllowed task) (
                          either _ _ _ (validate_service_account-AreAllowed task) (
                            either _ _ _ (get_object_acl-AreAllowed task) (
                              either _ _ _ (get_deleted_objects-AreAllowed task) (
                                either _ _ _ (dirsync_changes-AreAllowed task)
                                  (refused-AreAllowed "unknown_task")))))))))))))))

  -- Whatever task the agent carries out, each write to the directory that it makes is permitted: a
  -- member is added to a group only without a configured guard, or where the group is none of the
  -- tier-0 assets that BloodHound names and BloodHound answers for each of them that there is no
  -- path from the group; and an object is restored only through a connected directory that has it
  -- in its recycle bin.
  pub execute-Permitted :
      (severities : List ℕ) (task : Task)
      → All (Permitted env) (writes_of (execute {F = F} env severities task))
  unfolding AreAllowed
  execute-Permitted severities task = execute-AreAllowed severities task

unanswered_low :
    (guard : BloodHound) (group : String)
    → guard.tier_zero ≡ none
    → leb 4 (check_group_membership_risk guard group).risk_level ≡ false
unfolding check_group_membership_risk
unanswered_low guard group failed = rw (check_group_membership_risk, failed) refl

-- A failed query for the tier-0 assets lets every addition through: with a guard whose query for
-- them fails, an addition to any group goes ahead exactly as without a guard.
pub unanswered_guard_adds :
    (F : Type 0) (env : Setting) (guard : BloodHound) (account group : String)
    → env.guard ≡ some guard
    → guard.tier_zero ≡ none
    → guarded_add {F = F} env account group ≡ add_member_now env account group
unfolding guarded_add
unanswered_guard_adds F env guard account group there failed =
    ground (arith, unanswered_low guard group)
