-- ===== src/EnclaveClient/Responses.antt =====
-- `predict`, `health_check` and `list_models` of `EnclaveClient`, with `_normalize_predict_response`.
use confidential_ml_feature.Prelude.{
  String, ℕ, Bool, true, false, ◌&&◌, ◌||◌, not, Option, none, some, List, [], ◌∷◌, ◌=ₜ◌,
  if◌then◌else◌, Text, Bytes, Result, ok, err, ◌>>=◌,
}
use confidential_ml_feature.Python.Codes.{codes}
use confidential_ml_feature.Python.Json.{
  Json, Items, Fields, nil, cons, end, field, str, arr, float, get_field, truthy,
}
use confidential_ml_feature.Wire
use confidential_ml_feature.Wire.{JsonCodec}
use confidential_ml_feature.EnclaveClient.{
  Error, Sockets, Settings, State, send_request, communication, malformed,
}
use confidential_ml_feature.EnclaveClient

-- The conversions of Python that these use: `float(_)` of a JSON value, with `none` for the errors
-- that it raises, `str(_)` of one that is no text, and `base64.b64encode(_).decode("ascii")`.
pub record Conversions : Type 0 where
  pub to_float : Json → Option ℕ
  pub str_of : Json → Text
  pub b64encode : Bytes → Text

-- What the methods raise: what `send_request` raises, the errors that report the enclave's, with
-- their messages, and ValueError or TypeError of `float`.
pub data Exception : Type 0 where
  request_failed : Error → Exception
  remote_model_not_found remote_dimension_mismatch remote_invalid_request : Text → Exception
  remote_failure : Text → Exception
  malformed_response invalid_model_list no_model_list not_a_float : Exception

pub record Prediction : Type 0 where
  pub prediction : ℕ
  pub confidence : ℕ
  pub latency_ms : ℕ
  pub served_from_cache : Bool

abbrev pub is_text : String → Option Json → Bool
is_text name (some (str s)) = s =ₜ codes name
is_text name _ = false

-- field not in response
abbrev lacks : Option Json → Bool
lacks none = true
lacks (some v) = false

abbrev pub flag : Option Json → Bool
flag none = false
flag (some v) = truthy v

module _ (python : Conversions) where
  -- str(response.get("message", "Enclave inference failed."))
  unfoldable pub message_of : Option Json → Text
  message_of none = codes "Enclave inference failed."
  message_of (some (str s)) = s
  message_of (some v) = python.str_of v

  unfoldable pub remote_error : Option Json → Text → Exception
  remote_error code message =
      if is_text "MODEL_NOT_FOUND" code
      then remote_model_not_found message
      else if is_text "FEATURE_DIMENSION_MISMATCH" code
      then remote_dimension_mismatch message
      else if is_text "INVALID_REQUEST" code
      then remote_invalid_request message
      else remote_failure message

  -- float(response[name]), which is there.
  unfoldable pub float_at : Option Json → Result Exception ℕ
  float_at none = err malformed_response
  float_at (some v) = elim (python.to_float v) [ none ↦ err not_a_float | some x ↦ ok x ]

  -- `_normalize_predict_response`
  unfoldable pub normalize : Fields → Result Exception Prediction
  unfolding message_of remote_error float_at
  normalize response =
      let status = get_field (codes "status") response in
      let prediction_value = get_field (codes "prediction") response in
      let confidence_value = get_field (codes "confidence") response in
      let latency_value = get_field (codes "latency_ms") response in
      if is_text "error" status
      then err (
          remote_error (get_field (codes "code") response)
            (message_of (get_field (codes "message") response)))
      else if not (is_text "ok" status)
      then err malformed_response
      else if lacks prediction_value || (lacks confidence_value || lacks latency_value)
      then err malformed_response
      else do
        x ← float_at prediction_value
        y ← float_at confidence_value
        z ← float_at latency_value
        ok (record {
          prediction = x;
          confidence = y;
          latency_ms = z;
          served_from_cache = flag (get_field (codes "served_from_cache") response);
        })

  unfoldable pub floats : List ℕ → Items
  floats [] = nil
  floats (x ∷ xs) = cons (float x) (floats xs)

  -- The optional entries of the payload of `predict`.
  abbrev with_tenant : Option Text → Fields
  with_tenant none = end
  with_tenant (some tenant_id) = field (codes "tenant_id") (str tenant_id) end

  abbrev with_blob : Option Bytes → Fields → Fields
  with_blob none rest = rest
  with_blob (some blob) rest =
      field (codes "encrypted_model_blob") (str (python.b64encode blob)) rest

  -- The payload of `predict`.
  unfoldable pub predict_payload : Text → List ℕ → Bytes → Option Bytes → Option Text → Fields
  unfolding floats
  predict_payload model_name features key blob tenant_id =
      field (codes "model_name") (str model_name) (
        field (codes "features") (arr (floats features)) (
          field (codes "encrypted_model_key") (str (python.b64encode key))
            (with_blob blob (with_tenant tenant_id))))

  unfoldable pub normalize_answer : Result Error Fields → Result Exception Prediction
  unfolding normalize
  normalize_answer (ok response) = normalize response
  normalize_answer (err e) = err (request_failed e)

  -- The names of the models, all of which are texts.
  unfoldable pub text_items : Items → Option (List Text)
  text_items nil = some []
  text_items (cons (str s) xs) = elim (text_items xs) [ none ↦ none | some ss ↦ some (s ∷ ss) ]
  text_items (cons v xs) = none

  unfoldable pub model_names : Option Json → Result Exception (List Text)
  model_names none = ok []
  model_names (some (arr xs)) = elim (text_items xs) [
    | none ↦ err invalid_model_list
    | some names ↦ ok names
  ]
  model_names (some v) = err invalid_model_list

  unfoldable pub list_answer : Result Error Fields → Result Exception (List Text)
  list_answer (ok response) =
      if is_text "ok" (get_field (codes "status") response)
      then model_names (get_field (codes "models") response)
      else err no_model_list
  list_answer (err e) = err (request_failed e)

  -- The errors of `send_request` are EnclaveCommunicationErrors, but for one that nothing catches;
  -- `no_vsock` is one, too.
  unfoldable pub health_answer : Result Error Fields → Result Exception Bool
  health_answer (ok response) = ok (
      is_text "ok" (get_field (codes "status") response)
      && is_text "ping" (get_field (codes "echo") response))
  health_answer (err (EnclaveClient.uncaught Wire.no_vsock)) = ok false
  health_answer (err (EnclaveClient.uncaught e)) = err (request_failed (EnclaveClient.uncaught e))
  health_answer (err e) = ok false

  module _ {World : Type 0} (json : JsonCodec) (sockets : Sockets World) (settings : Settings) where
    unfoldable pub predict :
        Text
        → List ℕ
        → Bytes
        → Option Bytes
        → Option Text
        → State World
        → Result Exception Prediction × State World
    predict model_name features key blob tenant_id st =
        let (r, st') =
          send_request json sockets settings (codes "predict")
            (predict_payload model_name features key blob tenant_id) st in
        (normalize_answer r, st')

    unfoldable pub list_models : State World → Result Exception (List Text) × State World
    list_models st =
        let (r, st') = send_request json sockets settings (codes "list_models") end st in
        (list_answer r, st')

    unfoldable pub health_check : State World → Result Exception Bool × State World
    health_check st =
        let (r, st') =
          send_request json sockets settings (codes "health")
            (field (codes "echo") (str (codes "ping")) end) st in
        (health_answer r, st')
