-- ===== src/Agents/Guard.antt =====
-- `BloodHoundGuard` of services/cortex-agents/cortex_agents/ad/bloodhound_guard.py. The replies of
-- BloodHound to its two queries are arguments: none where the request or its parsing raises.
use c_e.Common.{
  ℕ, Bool, true, not, String, List, [], ◌∷◌, Option, none, some, if◌then◌else◌, ltb, length, take,
  is_empty, contains,
}
use c_e.Common.Int.{ℤ, pos, negsuc}

pub record BloodHound : Type 0 where
  -- The paths from an object to another.
  pub attack_paths : String → String → Option (List String)
  pub tier_zero : Option (List String)

pub record PathCheck : Type 0 where
  pub has_path : Bool
  pub path_count : ℤ
  pub shortest : Option String
  pub risk_level : ℕ

pub record GroupRisk : Type 0 where
  pub risk_level : ℕ
  pub reason : String
  pub action : String
  pub path : Option String

pub record RiskyPath : Type 0 where
  pub target : String
  pub check : PathCheck

pub record Exposure : Type 0 where
  pub reachable_tier0_assets : ℕ
  pub paths : List RiskyPath
  pub risk_level : ℕ

abbrev head : List String → Option String
head [] = none
head (x ∷ xs) = some x

abbrev path_check : Option (List String) → PathCheck
path_check none = record { has_path = true; path_count = negsuc 0; shortest = none; risk_level = 3 }
path_check (some paths) = record {
  has_path = not (is_empty paths);
  path_count = pos (length paths);
  shortest = head paths;
  risk_level = if is_empty paths then 0 else 5;
}

abbrev max_level : ℕ → List RiskyPath → ℕ
max_level n [] = n
max_level n (p ∷ ps) = max_level (if ltb n p.check.risk_level then p.check.risk_level else n) ps

module _ (b : BloodHound) where
  abbrev pub check_attack_path : String → String → PathCheck
  check_attack_path from to = path_check (b.attack_paths from to)

  -- A failed query gives no assets.
  abbrev pub get_tier0_assets : List String
  get_tier0_assets = elim b.tier_zero [ none ↦ [] | some assets ↦ assets ]

  -- The loop over the assets, up to the first with a path.
  abbrev pub first_path_risk : String → List String → GroupRisk
  first_path_risk group [] = record {
    risk_level = 1;
    reason = "no_tier0_path";
    action = "allow";
    path = none;
  }
  first_path_risk group (asset ∷ assets) =
      let check = check_attack_path group asset in
      let rest = first_path_risk group assets in
      if check.has_path
      then record {
        risk_level = 4;
        reason = "group_has_path_to_tier0";
        action = "requires_approval";
        path = check.shortest;
      }
      else rest

  unfoldable pub check_group_membership_risk : String → GroupRisk
  check_group_membership_risk group =
      if contains group get_tier0_assets
      then record {
        risk_level = 5;
        reason = "target_group_is_tier0";
        action = "deny_automatic_add_human_required";
        path = none;
      }
      else first_path_risk group get_tier0_assets

  abbrev risky_paths : String → List String → List RiskyPath
  risky_paths object_id [] = []
  risky_paths object_id (asset ∷ assets) =
      let check = check_attack_path object_id asset in
      let rest = risky_paths object_id assets in
      if check.has_path then record { target = asset; check = check } ∷ rest else rest

  unfoldable pub get_resource_exposure : String → Exposure
  get_resource_exposure object_id =
      let paths = risky_paths object_id (take 10 get_tier0_assets) in
      record {
        reachable_tier0_assets = length paths;
        paths = paths;
        risk_level = max_level 0 paths;
      }

  unfoldable pub get_blast_radius : String → Exposure
  get_blast_radius object_id =
      let exposure = get_resource_exposure object_id in
      record exposure { paths = take 5 exposure.paths }
