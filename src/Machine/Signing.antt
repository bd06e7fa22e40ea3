-- ===== src/Machine/Signing.antt =====
-- services/python/cortex-sentinel-machine/app/policy/signing.py: signed manifests. HMAC and JSON are
-- the libraries' and are arguments here.
use c_e.Common.{
  Bool, true, false, String, List, [], ◌∷◌, Option, none, some, ◌≡◌, arith, if◌then◌else◌, str_eq,
  str_eq_refl, contains,
}
use c_e.Common.Dict.{Dict}

-- `hmac.new(key, payload, sha256).hexdigest()`, `json.dumps(body, …)`, and what the code asks of a
-- JSON value.
pub record Signing (J : Type 0) : Type 0 where
  pub hexdigest : String → String → String
  pub dumps : Dict J → String
  pub is_text : J → String → Bool

-- The body of a manifest: none, a value that is no object, or an object.
pub data ManifestBody (J : Type 0) : Type 0 where
  missing other : ManifestBody J
  object : Dict J → ManifestBody J

-- `str(manifest.get("algorithm", ""))`, the body, and `str(manifest.get("signature", ""))`
pub record Manifest (J : Type 0) : Type 0 where
  pub algorithm : String
  pub body : ManifestBody J
  pub signature : String

-- The fields of a signer.
pub record ManifestSigner : Type 0 where
  pub algorithm : String
  pub key_material : String

abbrev supported : List String
supported = "hmac-sha256" ∷ []

-- `manifest.get("body", {})` if it is an object
abbrev pub object_of : {J : Type 0} → ManifestBody J → Option (Dict J)
object_of missing = some []
object_of other = none
object_of (object d) = some d

module _ {J : Type 0} ⦃s : Signing J⦄ where
  -- Another algorithm raises.
  unfoldable pub sign : ManifestSigner → Dict J → Option (Manifest J)
  sign signer body =
      if contains signer.algorithm supported
      then some record {
        algorithm = signer.algorithm;
        body = object body;
        signature = s.hexdigest signer.key_material (s.dumps body);
      }
      else none

  verify : ManifestSigner → Manifest J → Bool
  verify signer manifest =
      if contains manifest.algorithm supported
      then elim (object_of manifest.body) [
        | none ↦ false
        | some body ↦ str_eq manifest.signature (s.hexdigest signer.key_material (s.dumps body))
      ]
      else false

  -- What a signer signs, every signer with the same key verifies.
  verify-sign :
      (first second : ManifestSigner) (body : Dict J) (manifest : Manifest J)
      → first.key_material ≡ second.key_material
      → sign first body ≡ some manifest
      → verify second manifest ≡ true
  unfolding sign verify
  verify-sign first second body manifest same signed =
      ground (arith, str_eq_refl (s.hexdigest second.key_material (s.dumps body)))
