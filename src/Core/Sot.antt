-- ===== src/Core/Sot.antt =====
-- shared/cortex-core/cortex_core/sot.py: observation tokens. `now` is the `time.time()` of the
-- call, and the values of `metadata` are texts.
use c_e.Common.{
  ℕ, Bool, true, false, not, ◌&&◌, String, List, [], Option, none, some, leb, if◌then◌else◌, length,
  str_eq,
}
use c_e.Common.Int.{ℤ, pos}
use c_e.Common.Dict.{Dict, insert}
use c_e.Common.Float.{Float, fmin}
pub mod Lifecycle

pub record SotRecord (F : Type 0) : Type 0 where
  pub token_id : String
  pub entity_id : String
  pub entity_type : String
  pub reason_codes : List String
  pub observation_level : String
  pub restrictions : List String
  pub issued_at : F
  pub expires_at : F
  pub renewable : Bool
  pub revoked_at : Option F
  pub metadata : Dict String

-- `x or []`, `x or {}`
abbrev or_empty {ℓ} : {A : Type ℓ} → Option (List A) → List A
or_empty none = []
or_empty (some xs) = xs

abbrev pub is_some {ℓ} : {A : Type ℓ} → Option A → Bool
is_some none = false
is_some (some x) = true

pub record SotImpact (F : Type 0) : Type 0 where
  pub token_id : String
  pub active : Bool
  pub expired : Bool
  pub revoked : Bool
  pub trust_recovery_penalty : F
  pub escalation_ready : Bool
  pub restriction_count : ℕ

module _ {F : Type 0} ⦃o : Float F⦄ where
  open o use {lit, of_int, lt, le, add}

  -- `token_id` and `issued_at` are the defaults that the record draws when it is made, and `now`
  -- the clock that `issue_sot` reads.
  unfoldable pub issue_sot :
      (token_id : String) (issued_at now : F) (entity_id entity_type : String)
      → (reason_codes : List String) (observation_level : String)
      → (restrictions : Option (List String)) (ttl_seconds : ℤ) (renewable : Bool)
      → (metadata : Option (Dict String)) → SotRecord F
  issue_sot token issued now entity kind reasons level restrictions ttl renewable metadata =
      record {
        token_id = token;
        entity_id = entity;
        entity_type = kind;
        reason_codes = reasons;
        observation_level = level;
        restrictions = or_empty restrictions;
        issued_at = issued;
        expires_at = add now (of_int ttl);
        renewable = renewable;
        revoked_at = none;
        metadata = or_empty metadata;
      }

  pub expire_sot : F → SotRecord F → SotRecord F
  expire_sot now s = record s { expires_at = fmin s.expires_at now }

  pub revoke_sot : F → String → SotRecord F → SotRecord F
  revoke_sot now reason s = record s {
    revoked_at = some now;
    metadata = insert "revocation_reason" reason s.metadata;
  }

  abbrev is_active : F → SotRecord F → Bool
  is_active now s = not (is_some s.revoked_at) && lt now s.expires_at

  pub evaluate_sot_impact : F → SotRecord F → SotImpact F
  evaluate_sot_impact now s = record {
    token_id = s.token_id;
    active = is_active now s;
    expired = le s.expires_at now;
    revoked = is_some s.revoked_at;
    trust_recovery_penalty =
        if is_active now s && str_eq s.observation_level "deep"
        then lit 500_000
        else if is_active now s
        then lit 250_000
        else lit 0;
    escalation_ready = is_active now s && leb 2 (length s.reason_codes);
    restriction_count = length s.restrictions;
  }
