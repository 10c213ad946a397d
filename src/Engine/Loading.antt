-- ===== src/Engine/Loading.antt =====
-- `InferenceEngine.load_model` and its helpers.
use confidential_ml_feature.Prelude.{
  ℤ, pos, positive, Bool, true, false, Option, none, some, ◌∷◌, ◌++◌, Text, Bytes, Result, ok, err,
  ◌>>=◌, ◌>>◌, require, if◌then◌else◌, ◌=ₜ◌,
}
use confidential_ml_feature.Python.Codes.{codes}
use confidential_ml_feature.Python.Json.{
  Json, Fields, obj, str, int, bool, get_field, as_str, truthy,
}
use confidential_ml_feature.Python.Strip.{strip, is_empty}
use confidential_ml_feature.Python.Utf8
use confidential_ml_feature.OrderedDict
use confidential_ml_feature.Engine.{
  LoadFailure, Exception, LoadedModel, Platform, Engine, empty_name, empty_weights, bundle_not_json,
  bundle_not_object, bundle_fields_missing, name_mismatch, data_key_not_decrypted,
  artifact_not_json, artifact_not_object, algorithm_unsupported, ciphertext_missing,
  artifact_not_decrypted, artifact_not_deserialized, dimension_invalid, dimension_unknown,
  model_load, value_error, type_error,
}

-- The four required fields of a load bundle.
pub record Bundle : Type 0 where
  pub tenant_id : Text
  pub model_name : Text
  pub encrypted_model_key : Text
  pub encrypted_model_blob : Text

abbrev pub or_raise {ℓ} : {A : Type ℓ} → Option A → Exception → Result Exception A
or_raise none e = err e
or_raise (some a) e = ok a

abbrev field_text : Text → Fields → Result Exception Text
field_text name payload =
    or_raise (as_str (get_field name payload)) (model_load bundle_fields_missing)

abbrev as_object : Json → LoadFailure → Result Exception Fields
as_object (obj payload) e = ok payload
as_object _ e = err (model_load e)

-- An int, or a bool, of the payload that is above 0.
abbrev pub payload_dimension : Option Json → Result Exception ℤ
payload_dimension (some (int n)) = if positive n then ok n else err (model_load dimension_unknown)
payload_dimension (some (bool true)) = ok (pos 1)
payload_dimension _ = err (model_load dimension_unknown)

module _ {Keys Model : Type 0} (p : Platform Keys Model) where
  -- `_parse_load_request`
  unfoldable pub parse_load_request : Bytes → Result Exception Bundle
  parse_load_request encrypted_weights = do
    json ← or_raise (p.loads encrypted_weights) (model_load bundle_not_json)
    payload ← as_object json bundle_not_object
    tenant ← field_text (codes "tenant_id") payload
    name ← field_text (codes "model_name") payload
    key ← field_text (codes "encrypted_model_key") payload
    blob ← field_text (codes "encrypted_model_blob") payload
    ok (record {
      tenant_id = tenant;
      model_name = name;
      encrypted_model_key = key;
      encrypted_model_blob = blob;
    })

  -- payload.get("algorithm") == "AESGCM"
  abbrev is_aesgcm : Option Json → Bool
  is_aesgcm (some (str s)) = s =ₜ codes "AESGCM"
  is_aesgcm _ = false

  -- `_parse_model_payload`: the mapping, with its nonce and ciphertext.
  unfoldable pub parse_model_payload : Bytes → Result Exception (Fields × Text × Text)
  parse_model_payload encrypted_blob_json = do
    json ← or_raise (p.loads encrypted_blob_json) (model_load artifact_not_json)
    payload ← as_object json artifact_not_object
    require (is_aesgcm (get_field (codes "algorithm") payload)) (model_load algorithm_unsupported)
    nonce ←
        or_raise (as_str (get_field (codes "nonce_b64") payload)) (model_load ciphertext_missing)
    ciphertext ←
        or_raise (as_str (get_field (codes "ciphertext_b64") payload))
          (model_load ciphertext_missing)
    ok (payload, nonce, ciphertext)

  -- f"{tenant_id}:{model_name}".encode()
  abbrev pub default_aad : Text → Text → Result Exception Bytes
  default_aad tenant_id model_name =
      or_raise (Utf8.encode (tenant_id ++ b':' ∷ model_name)) value_error

  -- `_build_aad`
  unfoldable pub build_aad : Text → Text → Option Json → Result Exception Bytes
  build_aad tenant_id model_name none = default_aad tenant_id model_name
  build_aad tenant_id model_name (some (str aad_b64)) =
      if is_empty aad_b64
      then default_aad tenant_id model_name
      else or_raise (p.b64decode aad_b64) value_error
  build_aad tenant_id model_name (some v) =
      if truthy v then err type_error else default_aad tenant_id model_name

  -- `_extract_feature_dimension`
  unfoldable pub extract_feature_dimension : Model → Fields → Result Exception ℤ
  extract_feature_dimension model payload = elim (p.n_features_in model) [
    | some n ↦ if positive n then ok n else err (model_load dimension_invalid)
    | none ↦ payload_dimension (get_field (codes "feature_dimension") payload)
  ]

  -- The bundle's checks, and its key and blob decoded: `load_model` before the key is decrypted.
  unfoldable pub open_bundle : Text → Bytes → Result Exception (Bundle × Bytes × Bytes)
  open_bundle name encrypted_weights = do
    bundle ← parse_load_request encrypted_weights
    require (bundle.model_name =ₜ name) (model_load name_mismatch)
    encrypted_key ← or_raise (p.b64decode bundle.encrypted_model_key) value_error
    encrypted_blob_json ← or_raise (p.b64decode bundle.encrypted_model_blob) value_error
    ok (bundle, encrypted_key, encrypted_blob_json)

  -- From the plaintext data key to the loaded model.
  unfoldable pub open_model : Text → Text → Bytes → Bytes → Result Exception (LoadedModel Model)
  open_model name tenant_id data_key encrypted_blob_json = do
    (payload, nonce_b64, ciphertext_b64) ← parse_model_payload encrypted_blob_json
    nonce ← or_raise (p.b64decode nonce_b64) value_error
    ciphertext ← or_raise (p.b64decode ciphertext_b64) value_error
    aad ← build_aad tenant_id name (get_field (codes "aad_b64") payload)
    plaintext ←
        or_raise (p.aes_gcm_decrypt data_key nonce ciphertext aad)
          (model_load artifact_not_decrypted)
    model ← or_raise (p.joblib_load plaintext) (model_load artifact_not_deserialized)
    dimension ← extract_feature_dimension model payload
    ok (record { model_name = name; model = model; feature_dimension = dimension })

  -- The last locked section of `load_model`: store, make newest, evict the oldest.
  unfoldable pub store_model : Text → LoadedModel Model → Engine Keys Model → Engine Keys Model
  store_model name loaded engine = record engine {
    models =
        OrderedDict.evict engine.max_models
          (OrderedDict.move_to_end name (OrderedDict.insert name loaded engine.models));
  }

  unfoldable pub finish_load :
      Text
      → Result Exception (LoadedModel Model)
      → Engine Keys Model
      → Result Exception (Unit {0}) × Engine Keys Model
  finish_load name (ok loaded) engine = (ok tt, store_model name loaded engine)
  finish_load name (err e) engine = (err e, engine)

  -- `_decrypt_data_key` and the rest of `load_model`.
  unfoldable pub decrypt_and_store :
      Text
      → Bundle
      → Bytes
      → Bytes
      → Engine Keys Model
      → Result Exception (Unit {0}) × Engine Keys Model
  decrypt_and_store name bundle encrypted_key encrypted_blob_json engine =
      let (data_key, keys') = p.decrypt_data_key encrypted_key bundle.tenant_id engine.keys in
      let engine' = record engine { keys = keys' } in
      elim data_key [
        | none ↦ (err (model_load data_key_not_decrypted), engine')
        | some k ↦ finish_load name (open_model name bundle.tenant_id k encrypted_blob_json) engine'
      ]

  unfoldable pub load_bundle :
      Text
      → Result Exception (Bundle × Bytes × Bytes)
      → Engine Keys Model
      → Result Exception (Unit {0}) × Engine Keys Model
  load_bundle name (ok (bundle, key, blob)) engine = decrypt_and_store name bundle key blob engine
  load_bundle name (err e) engine = (err e, engine)

  -- `load_model`: a model that is loaded under the name is only made the newest.
  unfoldable pub load_model :
      Text → Bytes → Engine Keys Model → Result Exception (Unit {0}) × Engine Keys Model
  load_model model_name encrypted_weights engine =
      let name = strip model_name in
      if is_empty name
      then (err (model_load empty_name), engine)
      else if is_empty encrypted_weights
      then (err (model_load empty_weights), engine)
      else elim (OrderedDict.get name engine.models) [
        | some cached ↦
            (ok tt, record engine { models = OrderedDict.move_to_end name engine.models })
        | none ↦ load_bundle name (open_bundle name encrypted_weights) engine
      ]
