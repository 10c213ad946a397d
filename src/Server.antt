-- ===== src/Server.antt =====
-- enclave/server.py: `VsockRPCServer._dispatch_request` and `_handle_predict`. A response is the
-- mapping that goes back to the host; its message is the literal of the source, or the exception
-- whose text it is.
pub mod Lifecycle
pub mod Rendering
pub mod Connection
pub mod Delivery
pub mod Responses
pub mod Tenants
use Prim.Native.String.{String}
use confidential_ml_feature.Prelude.{
  ℕ, Bool, true, false, not, Option, none, some, List, [], ◌∷◌, Text, Bytes, length, Result, ok,
  err, ◌>>=◌, if◌then◌else◌, ◌=ₜ◌,
}
use confidential_ml_feature.Python.Codes.{codes}
use confidential_ml_feature.Python.Json.{
  Json, Items, Fields, str, obj, nil, cons, field, end, get_field, as_str, as_list, is_none,
  to_list,
}
use confidential_ml_feature.Python.Strip.{strip, is_empty}
use confidential_ml_feature.Engine.{
  LoadFailure, Exception, Platform, Engine, Prediction, model_load, model_not_loaded, no_features,
  dimension_mismatch, prediction_failed, value_error, type_error, overflow_error, is_model_loaded,
  list_loaded_models, predict,
}
use confidential_ml_feature.Engine.Loading.{load_model}

pub data Code : Type 0 where
  invalid_request invalid_action model_not_found decryption_failed : Code
  feature_dimension_mismatch inference_failed internal_error : Code

pub data Message : Type 0 where
  model_name_required tenant_id_required features_not_list key_required : Message
  not_loaded_and_no_blob features_not_numeric unexpected_failure : Message
  unsupported_action : Option Json → Message
  text_of : Exception → Message

pub data Response : Type 0 where
  predicted : Prediction → Bool → Response
  health : Json → ℕ → Response
  models : List Text → Response
  error : Code → Message → Response

-- The `except` clauses of `_handle_predict`, in their order.
unfoldable pub handle_exception : Exception → Response
handle_exception value_error = error invalid_request features_not_numeric
handle_exception type_error = error invalid_request features_not_numeric
handle_exception (model_load e) = error decryption_failed (text_of (model_load e))
handle_exception (model_not_loaded name) = error model_not_found (text_of (model_not_loaded name))
handle_exception no_features = error feature_dimension_mismatch (text_of no_features)
handle_exception (dimension_mismatch n k) =
    error feature_dimension_mismatch (text_of (dimension_mismatch n k))
handle_exception prediction_failed = error inference_failed (text_of prediction_failed)
handle_exception overflow_error = error internal_error unexpected_failure

-- `not isinstance(_, str) or not _.strip()`
abbrev pub is_blank : Option Text → Bool
is_blank none = true
is_blank (some s) = is_empty (strip s)

-- `not isinstance(_, str) or not _`
abbrev pub is_missing : Option Text → Bool
is_missing none = true
is_missing (some s) = is_empty s

abbrev pub text_or_empty : Option Text → Text
text_or_empty none = []
text_or_empty (some s) = s

-- request.get("echo", "ping")
abbrev pub echo_or_ping : Option Json → Json
echo_or_ping none = str (codes "ping")
echo_or_ping (some v) = v

abbrev pub json_or_null : Option Json → Json
json_or_null none = Json.null
json_or_null (some v) = v

module _ {Keys Model : Type 0} (p : Platform Keys Model) where
  -- [float(value) for value in features]
  unfoldable pub to_floats : List Json → Result Exception (List ℕ)
  to_floats [] = ok []
  to_floats (v ∷ vs) = do x ← p.to_float v; xs ← to_floats vs; ok (x ∷ xs)

  -- json.dumps(load_bundle).encode("utf-8")
  unfoldable pub load_bundle_bytes : Text → Text → Text → Json → Bytes
  load_bundle_bytes tenant_id model_name key blob = p.dumps (
      obj (
        field (codes "tenant_id") (str tenant_id) (
          field (codes "model_name") (str model_name) (
            field (codes "encrypted_model_key") (str key)
              (field (codes "encrypted_model_blob") blob end)))))

  -- The response for a prediction that returned or raised.
  unfoldable pub respond : Bool → Result Exception Prediction → Response
  unfolding handle_exception
  respond served_from_cache (ok prediction) = predicted prediction served_from_cache
  respond served_from_cache (err e) = handle_exception e

  -- The call of `engine.predict`, its features converted first.
  unfoldable pub run_prediction :
      Text → Items → Bool → ℕ → Engine Keys Model → Response × Engine Keys Model
  run_prediction model_name features served_from_cache latency engine =
      elim (to_floats (to_list features)) [
        | err e ↦ (handle_exception e, engine)
        | ok xs ↦
            let (r, engine') = predict p model_name xs latency engine in
            (respond served_from_cache r, engine')
      ]

  -- After `load_model`: go on, or the response for what it raised.
  unfoldable pub after_load :
      Text
      → Items
      → ℕ
      → Result Exception (Unit {0}) × Engine Keys Model
      → Response × Engine Keys Model
  after_load model_name features latency (ok u, engine) =
      run_prediction model_name features false latency engine
  after_load model_name features latency (err e, engine) = (handle_exception e, engine)

  -- The body of the `try`, with the checked fields.
  unfoldable pub load_and_predict :
      Text
      → Text
      → Items
      → Option Json
      → Option Json
      → ℕ
      → Engine Keys Model
      → Response × Engine Keys Model
  load_and_predict model_name tenant_id features key blob latency engine =
      let served_from_cache = is_model_loaded model_name engine in
      if not (is_none blob)
      then if is_missing (as_str key)
        then (error invalid_request key_required, engine)
        else after_load model_name features latency (
            load_model p model_name
              (load_bundle_bytes tenant_id model_name (text_or_empty (as_str key))
                (json_or_null blob))
              engine)
      else if not served_from_cache
      then (error model_not_found not_loaded_and_no_blob, engine)
      else run_prediction model_name features served_from_cache latency engine

  -- `_handle_predict`
  unfoldable pub handle_predict : Fields → ℕ → Engine Keys Model → Response × Engine Keys Model
  handle_predict request latency engine =
      let model_name = as_str (get_field (codes "model_name") request) in
      let tenant_id = as_str (get_field (codes "tenant_id") request) in
      if is_blank model_name
      then (error invalid_request model_name_required, engine)
      else if is_blank tenant_id
      then (error invalid_request tenant_id_required, engine)
      else elim (as_list (get_field (codes "features") request)) [
        | none ↦ (error invalid_request features_not_list, engine)
        | some features ↦
            load_and_predict (text_or_empty model_name) (text_or_empty tenant_id) features
              (get_field (codes "encrypted_model_key") request)
              (get_field (codes "encrypted_model_blob") request) latency engine
      ]

  abbrev pub is_action : String → Option Json → Bool
  is_action name (some (str s)) = s =ₜ codes name
  is_action name _ = false

  -- `_dispatch_request`
  unfoldable pub dispatch_request : Fields → ℕ → Engine Keys Model → Response × Engine Keys Model
  dispatch_request request latency engine =
      let action = get_field (codes "action") request in
      if is_action "health" action
      then (health (echo_or_ping (get_field (codes "echo") request)) (length engine.models), engine)
      else if is_action "list_models" action
      then (models (list_loaded_models engine), engine)
      else if is_action "predict" action
      then handle_predict request latency engine
      else (error invalid_action (unsupported_action action), engine)

  -- A connection's requests, one after the other.
  unfoldable pub serve : List (Fields × ℕ) → Engine Keys Model → List Response × Engine Keys Model
  serve [] engine = ([], engine)
  serve ((request, latency) ∷ requests) engine =
      let (r, engine') = dispatch_request request latency engine in
      let (rs, engine'') = serve requests engine' in (r ∷ rs, engine'')
