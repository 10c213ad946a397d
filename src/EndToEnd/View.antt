-- ===== src/EndToEnd/View.antt =====
-- `_normalize_predict_response` of feature_store/services/enclave_client.py, on the mappings that
-- enclave/server.py makes.
use confidential_ml_feature.Prelude.{◌=ₜ◌, ℕ, ◌≡◌, refl, some, Text, Result, ok, err}
use confidential_ml_feature.Python.Json.{float, get_field}
use confidential_ml_feature.EnclaveClient.Responses.{
  Conversions, Exception, Prediction, remote_model_not_found, remote_dimension_mismatch,
  remote_invalid_request, remote_failure, malformed_response, normalize,
}
use confidential_ml_feature.Server.{
  Code, Message, Response, invalid_request, model_not_found, feature_dimension_mismatch, predicted,
  health, models, error,
}
use confidential_ml_feature.Server.Rendering.{response_fields}

-- The exception that the host raises for an error of the enclave.
abbrev pub exception_of : Code → Text → Exception
exception_of model_not_found = remote_model_not_found
exception_of feature_dimension_mismatch = remote_dimension_mismatch
exception_of invalid_request = remote_invalid_request
exception_of _ = remote_failure

-- A response of the enclave as the host should see it.
abbrev pub client_view : (Message → Text) → Response → Result Exception Prediction
client_view text (predicted r cached) = ok (record {
  prediction = r.prediction;
  confidence = r.confidence;
  latency_ms = r.latency_ms;
  served_from_cache = cached;
})
client_view text (error code message) = err (exception_of code (text message))
client_view text (health echo count) = err malformed_response
client_view text (models names) = err malformed_response

-- Where `float` of a float is that float: what the host makes of each response of the enclave is the
-- prediction with all its fields, or the exception of the response's code with its message.
pub normalize-response_fields :
    (python : Conversions) (text : Message → Text) (response : Response)
    → ((x : ℕ) → python.to_float (float x) ≡ some x)
    → normalize python (response_fields text response) ≡ client_view text response
unfolding normalize response_fields get_field ◌=ₜ◌
normalize-response_fields python text (predicted r cached) exact =
    rw (exact r.prediction) (rw (exact r.confidence) (rw (exact r.latency_ms) refl))
normalize-response_fields python text (health echo count) exact = refl
normalize-response_fields python text (models names) exact = refl
normalize-response_fields python text (error invalid_request message) exact = refl
normalize-response_fields python text (error _ message) exact = refl
