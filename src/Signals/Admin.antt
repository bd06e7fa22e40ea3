-- ===== src/Signals/Admin.antt =====
-- services/cortex-admin-anomaly/cortex_admin_anomaly/engine.py: the profile of an administrator and
-- the scores of a session.
use c_e.Common.{
  ℕ, ◌+◌, Bool, false, not, ◌&&◌, ◌||◌, String, List, [], ◌∷◌, ◌++◌, if◌then◌else◌, leb, ◌==◌,
  length, filter, any, map, str_eq, contains,
}
use c_e.Common.Dict.{Dict, get_or, insert}
use c_e.Common.Float.{Float, fmin, fmax}
use c_e.Signals.{units, int, at_least}

pub record AdminActionEvent : Type 0 where
  pub admin_id : String
  pub action : String
  pub resource_family : String
  pub privilege_level : String

-- `collections.Counter`
abbrev pub count_up : List String → Dict ℕ → Dict ℕ
count_up [] counts = counts
count_up (s ∷ ss) counts = count_up ss (insert s (get_or s 0 counts + 1) counts)

pub record Profile : Type 0 where
  pub action_counts : Dict ℕ
  pub resource_families : Dict ℕ
  pub history_size : ℕ

unfoldable pub admin_behavior_profile : List AdminActionEvent → Profile
admin_behavior_profile events = record {
  action_counts = count_up (map (λ e. e.action) events) [];
  resource_families = count_up (map (λ e. e.resource_family) events) [];
  history_size = length events;
}

pub record AdminCompromiseSignal (F : Type 0) : Type 0 where
  pub admin_id : String
  pub admin_behavior_profile_score : F
  action_chain_rarity : F
  causal_break_score : F
  pub admin_session_escalation_score : F
  pub confidence : F
  pub evidence : List String

-- A pair of consecutive actions of which only the later is a domain administrator's.
unfoldable pub abrupt_escalation : List AdminActionEvent → Bool
abrupt_escalation (previous ∷ current ∷ rest) =
    let later = abrupt_escalation (current ∷ rest) in
    (str_eq current.privilege_level "domain_admin"
      && not (str_eq previous.privilege_level "domain_admin"))
    || later
abrupt_escalation _ = false

abbrev starts_badly : List AdminActionEvent → Bool
starts_badly [] = false
starts_badly (e ∷ _) = contains e.action ("dump_secrets" ∷ "rotate_breakglass" ∷ [])

module _ {F : Type 0} ⦃o : Float F⦄ where
  action_chain_rarity : Profile → List AdminActionEvent → F
  action_chain_rarity profile actions =
      if profile.history_size == 0
      then units 80
      else let rare =
          length (filter (λ e. leb (get_or e.action 0 profile.action_counts) 1) actions) in
        fmin (units 100) (
          o.round 2 (
            o.mul (o.div (int rare) (int (if leb 1 (length actions) then length actions else 1)))
              (units 100)))

  abbrev plus_if : Bool → ℕ → F → F
  plus_if test n score = if test then o.add score (units n) else score

  causal_break_score : Profile → List AdminActionEvent → F
  causal_break_score profile actions =
      let unusual_family =
        any (λ e. get_or e.resource_family 0 profile.resource_families == 0) actions in
      fmin (units 100) (
        o.round 2 (
          plus_if (starts_badly actions) 20
            (plus_if (abrupt_escalation actions) 35 (plus_if unusual_family 45 (units 0)))))

  -- `history` is what the store has for the administrator.
  admin_session_escalation_detector :
      List AdminActionEvent → String → List AdminActionEvent → AdminCompromiseSignal F
  unfolding admin_behavior_profile action_chain_rarity causal_break_score abrupt_escalation
  admin_session_escalation_detector history admin_id actions =
      let profile = admin_behavior_profile history in
      let profile_score = fmax (units 0) (
        fmin (units 100) (
          o.round 2
            (o.sub (units 100) (fmin (units 80) (o.mul (int profile.history_size) (units 2)))))) in
      let rarity = action_chain_rarity profile actions in
      let causal_break = causal_break_score profile actions in
      let evidence =
        (if at_least rarity 60 then "sequence never seen in historical admin profile" ∷ [] else [])
        ++ (if at_least causal_break 45 then "causal chain deviates from baseline" ∷ [] else [])
        ++ (if any (λ e. str_eq e.resource_family "crown-jewel-secrets") actions
            then "resource family unusual for this admin" ∷ []
            else []) in
      record {
        admin_id = admin_id;
        admin_behavior_profile_score = profile_score;
        action_chain_rarity = rarity;
        causal_break_score = causal_break;
        admin_session_escalation_score = fmin (units 100) (
            o.round 2 (
              o.add (o.add (o.mul profile_score (o.lit 200_000)) (o.mul rarity (o.lit 350_000)))
                (o.mul causal_break (o.lit 450_000))));
        confidence =
            fmin (o.lit 950_000)
              (o.round 2 (o.add (o.lit 420_000) (o.mul (o.lit 80_000) (int (length evidence)))));
        evidence = evidence;
      }
