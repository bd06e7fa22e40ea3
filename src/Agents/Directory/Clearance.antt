-- ===== src/Agents/Directory/Clearance.antt =====
-- When a task may add a member to a group.
use c_e.Common.{
  any, Bool, true, false, not, String, List, [], ◌∷◌, Option, none, some, ◌≡◌, ◌⊎◌, inl, inr, refl,
  arith, leb, Bool-cases, Option-cases, All, contains, str_eq, ltb,
}
use c_e.Common.Dict.{lookup, get_or}
use c_e.Common.Options.{by_if, by_option, by_test, ◌>>=◌}
use c_e.Agents.{AgentResult}
use c_e.Agents.Guard.{
  BloodHound, check_group_membership_risk, check_attack_path, get_tier0_assets, first_path_risk,
}
use c_e.Agents.Directory.{
  Ldap, Setting, Task, Write, add_member, undelete, Outcome, modify, rc4_kerberoastable,
  add_member_now, guarded_add, add_to_group, create_service_account, restore_deleted,
}

-- Each tier-0 asset that BloodHound names is another object, to which it finds no path.
abbrev pub IsClear : BloodHound → String → Type 0
IsClear guard group =
    (contains group (get_tier0_assets guard) ≡ false)
    × All (λ asset. guard.attack_paths group asset ≡ some []) (get_tier0_assets guard)

module _ (guard : BloodHound) where
  no_path :
      (group asset : String)
      → (check_attack_path guard group asset).has_path ≡ false
      → guard.attack_paths group asset ≡ some []
  no_path group asset h = elim (Option-cases (guard.attack_paths group asset)) [
    | inl failed ↦ ground arith
    | inr ([], found) ↦ found
    | inr (path ∷ paths, found) ↦ ground arith
  ]

  paths_clear :
      (group : String) (assets : List String)
      → leb 4 (first_path_risk guard group assets).risk_level ≡ false
      → All (λ asset. guard.attack_paths group asset ≡ some []) assets
  paths_clear group [] h = tt
  paths_clear group (asset ∷ assets) h =
      elim (Bool-cases (check_attack_path guard group asset).has_path) [
        | inl found ↦ ground arith
        | inr clear ↦ (no_path group asset clear, paths_clear group assets (ground arith))
      ]

  risk-IsClear :
      (group : String)
      → leb 4 (check_group_membership_risk guard group).risk_level ≡ false
      → IsClear guard group
  unfolding check_group_membership_risk
  risk-IsClear group h = elim (Bool-cases (contains group (get_tier0_assets guard))) [
    | inl tier0 ↦ ground arith
    | inr apart ↦ (apart, paths_clear group (get_tier0_assets guard) (ground arith))
  ]

-- What allows a write: a member is added without a guard or to a group that is clear of tier 0, and
-- an object is restored that a connected directory has in its recycle bin.
abbrev pub Permitted : Setting → Write → Type 0
Permitted env (add_member group account) =
    (env.guard ≡ none) ⊎ ((guard : BloodHound) × (env.guard ≡ some guard) × IsClear guard group)
Permitted env (undelete name) =
    (ldap : Ldap) × (env.ldap ≡ some ldap)
    × (ldap.connected ≡ true)
    × (any (env.mentions name) (ldap.deleted_objects name) ≡ true)

abbrev pub writes_of : {F : Type 0} → Outcome F → List Write
writes_of none = []
writes_of (some (result, writes)) = writes

module _ (F : Type 0) (env : Setting) where
  unfoldable pub AreAllowed : Outcome F → Type 0
  AreAllowed outcome = All (Permitted env) (writes_of outcome)

  pub bind-AreAllowed :
      {A : Type 0} (m : Option A) (f : A → Outcome F)
      → ((a : A) → m ≡ some a → AreAllowed (f a))
      → AreAllowed (m >>= f)
  unfolding AreAllowed
  bind-AreAllowed none f h = tt
  bind-AreAllowed (some a) f h = h a refl

  -- What is made with a result or a success writes only what is permitted.
  Made : {A : Type 0} → A × List Write → Type 0
  Made made = All (Permitted env) made.1

  -- Only the write itself can be made.
  modified-Permitted : (w : Write) → Permitted env w → Made (modify env w)
  unfolding Made
  modified-Permitted w p =
      by_option {X = Bool × List Write} Made env.ldap (false, []) _ (λ e. tt)
        λ ldap e.
          by_if {X = Bool × List Write} Made ldap.connected (ldap.modify_succeeds, w ∷ [])
            (false, []) (p, tt) tt

  add_member_now-Permitted :
      (account group : String)
      → Permitted env (add_member group account)
      → Made (add_member_now {F = F} env account group)
  unfolding add_member_now Made
  add_member_now-Permitted account group p = modified-Permitted (add_member group account) p

  guarded_add-Permitted : (account group : String) → Made (guarded_add {F = F} env account group)
  unfolding guarded_add Made
  guarded_add-Permitted account group =
      by_option {X = AgentResult F × List Write} Made env.guard _ _
        (λ e. add_member_now-Permitted account group (inl e))
        λ guard e.
          by_test {X = AgentResult F × List Write} Made
            (leb 4 (check_group_membership_risk guard group).risk_level) _ _ (λ risky. tt)
            (λ low.
              add_member_now-Permitted account group (inr (guard, e, risk-IsClear guard group low)))

  pub add_to_group-AreAllowed : (task : Task) → AreAllowed (add_to_group env task)
  unfolding add_to_group AreAllowed Made
  add_to_group-AreAllowed task = bind-AreAllowed (lookup "account_dn" task) _ λ account _.
      bind-AreAllowed (lookup "group_dn" task) _ λ group _. guarded_add-Permitted account group

  pub create_service_account-AreAllowed :
      (task : Task) → AreAllowed (create_service_account env task)
  unfolding create_service_account AreAllowed
  create_service_account-AreAllowed task =
      bind-AreAllowed (lookup "account_name" task) _ λ account _.
        bind-AreAllowed (lookup "password" task) _ λ password _.
          bind-AreAllowed (lookup "domain" task) _ λ domain _.
            by_if AreAllowed (ltb (env.char_count password) 25) _ _ tt
              (by_if AreAllowed (rc4_kerberoastable env (get_or "spn" "" task)) _ _ tt tt)

  pub restore_deleted-AreAllowed : (task : Task) → AreAllowed (restore_deleted env task)
  unfolding restore_deleted AreAllowed
  restore_deleted-AreAllowed task = bind-AreAllowed (lookup "object_dn" task) _ λ name _.
      by_option AreAllowed env.ldap _ _ (λ e. tt)
        λ ldap e.
          by_test AreAllowed (not ldap.connected) _ _ (λ off. tt)
            λ on.
              by_test AreAllowed (not (any (env.mentions name) (ldap.deleted_objects name))) _ _
                (λ gone. tt)
                λ there.
                  by_if (All (Permitted env)) (not (str_eq (get_or "parent_dn" "" task) ""))
                    (undelete name ∷ []) [] ((ldap, e, ground arith, ground arith), tt) tt
