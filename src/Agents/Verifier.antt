-- ===== src/Agents/Verifier.antt =====
-- `ADActionVerifier` of services/cortex-agents/cortex_agents/ad/action_verifier.py: repeated
-- searches after growing waits. What a search finds after each wait is an argument, as is the
-- comparison of two names without regard to case.
use c_e.Common.{
  ℕ, Bool, true, false, not, String, List, [], ◌∷◌, Option, none, some, if◌then◌else◌, any,
  is_empty, ◌≡◌, arith, Option-cases, inl, inr,
}
use c_e.Common.Dict.{Dict, lookup}
use c_e.Common.{str_eq}

-- The `memberOf` of the first object found.
pub data MemberOf : Type 0 where
  absent : MemberOf
  one : String → MemberOf
  many : List String → MemberOf

pub record Verification : Type 0 where
  pub is_consistent : Bool
  pub inconsistencies : List String
  pub replication_lag_estimate_s : ℕ

abbrev pub retry_intervals : List ℕ
retry_intervals = 2 ∷ 5 ∷ 15 ∷ 30 ∷ []

abbrev groups_of : MemberOf → List String
groups_of absent = []
groups_of (one group) = group ∷ []
groups_of (many groups) = groups

abbrev same_bool : Bool → Bool → Bool
same_bool true b = b
same_bool false b = not b

-- `group_dn.lower() in [group.lower() for group in member_of]`
abbrev pub is_member : (String → String → Bool) → String → MemberOf → Bool
is_member same group found = any (λ g. same g group) (groups_of found)

module _ (same : String → String → Bool) (search : ℕ → Option MemberOf) where
  abbrev membership_result : String → Bool → ℕ → MemberOf → Verification
  membership_result group should wait found =
      let consistent = same_bool (is_member same group found) should in
      record {
        is_consistent = consistent;
        inconsistencies = if consistent then [] else "unexpected_membership" ∷ [];
        replication_lag_estimate_s = wait;
      }

  -- The loop over the waits; the search after the last one may find nothing either.
  abbrev pub membership_from : String → Bool → List ℕ → Verification
  membership_from group should [] = record {
    is_consistent = false;
    inconsistencies = "verification_timeout" ∷ [];
    replication_lag_estimate_s = 52;
  }
  membership_from group should (wait ∷ waits) = elim (search wait) [
    | none ↦ membership_from group should waits
    | some found ↦ membership_result group should wait found
  ]

  unfoldable pub verify_group_membership : String → Bool → Verification
  verify_group_membership group should = membership_from group should retry_intervals

module _ (search : ℕ → Option (Dict String)) where
  -- The attributes that differ from what is expected.
  abbrev differing : Dict String → Dict String → List String
  differing [] actual = []
  differing ((attr, value) ∷ expected) actual =
      let rest = differing expected actual in
      elim (lookup attr actual) [
        | none ↦ attr ∷ rest
        | some v ↦ if str_eq v value then rest else attr ∷ rest
      ]

  abbrev created_from : Dict String → List ℕ → Verification
  created_from expected [] = record {
    is_consistent = false;
    inconsistencies = "object_not_found_after_creation" ∷ [];
    replication_lag_estimate_s = 52;
  }
  created_from expected (wait ∷ waits) = elim (search wait) [
    | none ↦ created_from expected waits
    | some actual ↦ record {
      is_consistent = is_empty (differing expected actual);
      inconsistencies = differing expected actual;
      replication_lag_estimate_s = wait;
    }
  ]

  verify_user_created : Dict String → Verification
  verify_user_created expected = created_from expected retry_intervals

module _ (same : String → String → Bool) (search : ℕ → Option MemberOf) (group : String)
    (should : Bool) where
  -- The first search that finds something decides.
  abbrev Decides : Verification → ℕ → MemberOf → Type 0
  Decides v wait found =
      (search wait ≡ some found)
      × (same_bool (is_member same group found) should ≡ true)
      × (v.replication_lag_estimate_s ≡ wait)

  from_Decides :
      (waits : List ℕ)
      → (membership_from same search group should waits).is_consistent ≡ true
      → (wait : ℕ) × (found : MemberOf) × Decides
          (membership_from same search group should waits)
          wait
          found
  from_Decides [] h = absurd (ground arith)
  from_Decides (wait ∷ waits) h = elim (Option-cases (search wait)) [
    | inl e ↦ rw (membership_from, e) (from_Decides waits (ground arith))
    | inr (found, e) ↦ (wait, found, (e, ground arith, ground arith))
  ]

  -- A membership is reported as consistent only after a wait whose search found the account, with
  -- the membership as wanted, and the lag reported is that wait.
  verify_group_membership_lem :
      (verify_group_membership same search group should).is_consistent ≡ true
      → (wait : ℕ) × (found : MemberOf) × Decides
          (verify_group_membership same search group should)
          wait
          found
  unfolding verify_group_membership
  verify_group_membership_lem h = from_Decides retry_intervals h
