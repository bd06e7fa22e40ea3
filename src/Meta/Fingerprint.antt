-- ===== src/Meta/Fingerprint.antt =====
-- cortex/meta_decision/analysis_fingerprint_engine.py, over JSON values whose object keys are texts.
-- `json.dumps`, which can raise, `hashlib.sha256` and the builtin `sorted` are arguments.
use c_e.Common.{Bool, String, [], ◌∷◌, Option, none, some, if◌then◌else◌, str_eq}
use c_e.Common.Int.{ℤ}
use c_e.Common.Dict.{Dict}
use c_e.Common.Float.{Float}
use c_e.Common.Options.{◌>>=◌}

mutual
  pub data Json (F : Type 0) : Type 0 where
    null : Json F
    flag : Bool → Json F
    integer : ℤ → Json F
    number : F → Json F
    text : String → Json F
    items : Items F → Json F
    object : Fields F → Json F

  pub data Items (F : Type 0) : Type 0 where
    end : Items F
    item : Json F → Items F → Items F

  pub data Fields (F : Type 0) : Type 0 where
    blank : Fields F
    field : String → Json F → Fields F → Fields F

module _ {F : Type 0} where
  -- `value.get(key)`, and with a default.
  abbrev pub get_field : String → Fields F → Option (Json F)
  get_field key blank = none
  get_field key (field k v rest) = if str_eq k key then some v else get_field key rest

  abbrev pub field_or : String → Json F → Fields F → Json F
  field_or key default fields = elim (get_field key fields) [ none ↦ default | some v ↦ v ]

  abbrev pub fields_of : Dict F → Fields F
  fields_of [] = blank
  fields_of ((k, v) ∷ rest) = field k (number v) (fields_of rest)

unfoldable mutual
  -- The values are normalised and the fields sorted by key.
  pub normalize : {F : Type 0} ⦃o : Float F⦄ (sorted : Fields F → Fields F) → Json F → Json F
  normalize sorted null = null
  normalize sorted (flag b) = flag b
  normalize sorted (integer n) = integer n
  normalize ⦃o⦄ sorted (number x) = number (o.round 6 x)
  normalize sorted (text s) = text s
  normalize sorted (items vs) = items (normalize_items sorted vs)
  normalize sorted (object fs) = object (sorted (normalize_fields sorted fs))

  pub normalize_items :
      {F : Type 0} ⦃o : Float F⦄ (sorted : Fields F → Fields F) → Items F → Items F
  normalize_items sorted end = end
  normalize_items sorted (item v vs) = item (normalize sorted v) (normalize_items sorted vs)

  pub normalize_fields :
      {F : Type 0} ⦃o : Float F⦄ (sorted : Fields F → Fields F) → Fields F → Fields F
  normalize_fields sorted blank = blank
  normalize_fields sorted (field k v fs) = field k (normalize sorted v) (normalize_fields sorted fs)

pub record FingerprintResult : Type 0 where
  pub fingerprint : String
  pub material : String

module _ {F : Type 0} ⦃o : Float F⦄ (sorted : Fields F → Fields F) (dumps : Json F → Option String)
    (sha256 : String → String) where
  abbrev described : Fields F → Json F
  described event = object (
      field "scenario" (field_or "scenario" null event) (
        field "phase" (field_or "phase" null event) (
          field "source" (field_or "source" null event) (
            field "target" (field_or "target" null event) (
              field "asset_criticality" (field_or "asset_criticality" (number (o.lit 0)) event) (
                field "blast_radius" (field_or "blast_radius" (number (o.lit 0)) event) (
                  field "novelty_score" (field_or "novelty_score" (number (o.lit 0)) event)
                    (field "metadata" (field_or "metadata" (object blank) event) blank))))))))

  unfoldable pub payload : String → Fields F → Fields F → Fields F → Fields F → Json F
  payload version event features graph_context trust_context = object (
      field "event" (normalize sorted (described event)) (
        field "features" (normalize sorted (object features)) (
          field "graph_context" (normalize sorted (object graph_context)) (
            field "trust_context" (normalize sorted (object trust_context))
              (field "version" (text version) blank)))))

  unfoldable pub generate :
      String → Fields F → Fields F → Fields F → Fields F → Option FingerprintResult
  generate version event features graph_context trust_context =
      dumps (payload version event features graph_context trust_context) >>= λ material.
      some record { fingerprint = sha256 material; material = material }
