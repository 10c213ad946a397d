-- ===== src/EnclaveClient/Mock.antt =====
-- `MockEnclaveClient` of feature_store/services/enclave_client.py: the engine run in the host's own
-- process. A message is the literal of the source, or the exception whose text it is.
pub mod Outcomes
pub mod Equivalence
use confidential_ml_feature.Prelude.{
  ℕ, Bool, false, not, Option, none, some, List, [], ◌∷◌, ◌=ₜ◌, if◌then◌else◌, Text, Bytes, length,
  Result, ok, err, pos,
}
use confidential_ml_feature.Python.Codes.{codes}
use confidential_ml_feature.Python.Json.{
  Json, Items, Fields, str, int, arr, nil, cons, field, end, get_field, as_str, as_list, is_none,
  to_list,
}
use confidential_ml_feature.Engine.{
  Exception, Platform, Engine, Prediction, model_load, model_not_loaded, no_features,
  dimension_mismatch, is_model_loaded, list_loaded_models,
}
use confidential_ml_feature.Engine
use confidential_ml_feature.Engine.Loading.{load_model}
use confidential_ml_feature.Server.{
  Code, invalid_request, invalid_action, model_not_found, decryption_failed,
  feature_dimension_mismatch, is_missing, text_or_empty, echo_or_ping, json_or_null, to_floats,
  load_bundle_bytes,
}
use confidential_ml_feature.Server.Rendering.{code_text, names, prediction_fields}
use confidential_ml_feature.EnclaveClient.Responses
use confidential_ml_feature.EnclaveClient.Responses.{Conversions, floats, normalize, is_text}

pub data Message : Type 0 where
  name_and_features_required tenant_id_required key_required not_loaded_and_no_blob : Message
  unsupported_action : Text → Message
  text_of : Exception → Message

pub data Response : Type 0 where
  predicted : Prediction → Bool → Response
  health : Json → ℕ → Response
  models : List Text → Response
  error : Code → Message → Response

-- The `except` clauses of `send_request`, in their order.
unfoldable pub handle_exception : Exception → Response
handle_exception (model_load e) = error decryption_failed (text_of (model_load e))
handle_exception (model_not_loaded name) = error model_not_found (text_of (model_not_loaded name))
handle_exception no_features = error feature_dimension_mismatch (text_of no_features)
handle_exception (dimension_mismatch n k) =
    error feature_dimension_mismatch (text_of (dimension_mismatch n k))
handle_exception e = error invalid_request (text_of e)

unfoldable pub response_fields : (Message → Text) → Response → Fields
unfolding code_text names prediction_fields
response_fields text (predicted r cached) = prediction_fields r cached
response_fields text (health echo count) =
    field (codes "status") (str (codes "ok"))
      (field (codes "echo") echo (field (codes "models_loaded") (int (pos count)) end))
response_fields text (models loaded) =
    field (codes "status") (str (codes "ok")) (field (codes "models") (arr (names loaded)) end)
response_fields text (error code message) =
    field (codes "status") (str (codes "error")) (
      field (codes "code") (str (code_text code))
        (field (codes "message") (str (text message)) end))

module _ {Keys Model : Type 0} (p : Platform Keys Model) where
  -- The response for a prediction that returned or raised.
  unfoldable pub respond : Bool → Result Exception Prediction → Response
  unfolding handle_exception
  respond served_from_cache (ok prediction) = predicted prediction served_from_cache
  respond served_from_cache (err e) = handle_exception e

  unfoldable pub run_prediction :
      Text → Items → Bool → ℕ → Engine Keys Model → Response × Engine Keys Model
  run_prediction model_name features served_from_cache latency engine =
      elim (to_floats p (to_list features)) [
        | err e ↦ (handle_exception e, engine)
        | ok xs ↦
            let (r, engine') = Engine.predict p model_name xs latency engine in
            (respond served_from_cache r, engine')
      ]

  unfoldable pub after_load :
      Text
      → Items
      → ℕ
      → Result Exception (Unit {0}) × Engine Keys Model
      → Response × Engine Keys Model
  after_load model_name features latency (ok u, engine) =
      run_prediction model_name features false latency engine
  after_load model_name features latency (err e, engine) = (handle_exception e, engine)

  -- The body of the `try`.
  unfoldable pub load_and_predict :
      Text
      → Text
      → Items
      → Option Json
      → Option Json
      → ℕ
      → Engine Keys Model
      → Response × Engine Keys Model
  load_and_predict model_name tenant_id features key blob latency engine =
      let served_from_cache = is_model_loaded model_name engine in
      if not (is_none blob)
      then if is_missing (as_str key)
        then (error invalid_request key_required, engine)
        else after_load model_name features latency (
            load_model p model_name
              (load_bundle_bytes p tenant_id model_name (text_or_empty (as_str key))
                (json_or_null blob))
              engine)
      else if not served_from_cache
      then (error model_not_found not_loaded_and_no_blob, engine)
      else run_prediction model_name features served_from_cache latency engine

  -- The checks of a "predict" request, before the `try`.
  unfoldable pub checked :
      Option Text → Option Items → Fields → ℕ → Engine Keys Model → Response × Engine Keys Model
  checked (some model_name) (some features) payload latency engine =
      let tenant_id = as_str (get_field (codes "tenant_id") payload) in
      if is_missing tenant_id
      then (error invalid_request tenant_id_required, engine)
      else load_and_predict model_name (text_or_empty tenant_id) features
          (get_field (codes "encrypted_model_key") payload)
          (get_field (codes "encrypted_model_blob") payload) latency engine
  checked _ _ payload latency engine = (error invalid_request name_and_features_required, engine)

  -- `send_request`
  unfoldable pub send_request : Text → Fields → ℕ → Engine Keys Model → Response × Engine Keys Model
  unfolding checked
  send_request action payload latency engine =
      if action =ₜ codes "health"
      then (health (echo_or_ping (get_field (codes "echo") payload)) (length engine.models), engine)
      else if action =ₜ codes "list_models"
      then (models (list_loaded_models engine), engine)
      else if not (action =ₜ codes "predict")
      then (error invalid_action (unsupported_action action), engine)
      else checked (as_str (get_field (codes "model_name") payload))
          (as_list (get_field (codes "features") payload)) payload latency engine

  module _ (text : Message → Text) (python : Conversions) where
    -- An optional value as JSON.
    abbrev blob_json : Option Bytes → Json
    blob_json none = Json.null
    blob_json (some blob) = str (python.b64encode blob)

    abbrev tenant_json : Option Text → Json
    tenant_json none = Json.null
    tenant_json (some tenant_id) = str tenant_id

    unfoldable pub predict_payload : Text → List ℕ → Bytes → Option Bytes → Option Text → Fields
    predict_payload model_name features key blob tenant_id =
        field (codes "model_name") (str model_name) (
          field (codes "features") (arr (floats python features)) (
            field (codes "tenant_id") (tenant_json tenant_id) (
              field (codes "encrypted_model_key") (str (python.b64encode key))
                (field (codes "encrypted_model_blob") (blob_json blob) end))))

    unfoldable pub predict :
        Text
        → List ℕ
        → Bytes
        → Option Bytes
        → Option Text
        → ℕ
        → Engine Keys Model
        → Result Responses.Exception Responses.Prediction × Engine Keys Model
    predict model_name features key blob tenant_id latency engine =
        let (r, engine') =
          send_request (codes "predict") (predict_payload model_name features key blob tenant_id)
            latency engine in
        (normalize python (response_fields text r), engine')

    unfoldable pub health_check : ℕ → Engine Keys Model → Bool
    health_check latency engine = is_text "ok" (
        get_field (codes "status") (
          response_fields text
            (send_request (codes "health") (field (codes "echo") (str (codes "ping")) end) latency
              engine).0))

    -- [str(item) for item in models]
    unfoldable pub texts_of : Items → List Text
    texts_of nil = []
    texts_of (cons (str s) xs) = s ∷ texts_of xs
    texts_of (cons v xs) = python.str_of v ∷ texts_of xs

    unfoldable pub list_models : ℕ → Engine Keys Model → Result Responses.Exception (List Text)
    unfolding texts_of
    list_models latency engine =
        elim (get_field (codes "models")
          (response_fields text (send_request (codes "list_models") end latency engine).0)) [
            | none ↦ ok []
            | some (arr xs) ↦ ok (texts_of xs)
            | some v ↦ err Responses.invalid_model_list
          ]
