-- ===== src/Server/Rendering.antt =====
-- The mappings that `_dispatch_request` and `_handle_predict` of enclave/server.py return. The text of
-- a message is a parameter: the model keeps an exception in the place of its text.
use confidential_ml_feature.Prelude.{Bool, List, [], ◌∷◌, Text, pos}
use confidential_ml_feature.Python.Codes.{codes}
use confidential_ml_feature.Python.Json.{
  Items, Fields, nil, cons, end, field, str, int, float, bool, arr,
}
use confidential_ml_feature.Engine.{Prediction}
use confidential_ml_feature.Server.{
  Code, Message, Response, invalid_request, invalid_action, model_not_found, decryption_failed,
  feature_dimension_mismatch, inference_failed, internal_error, predicted, health, models, error,
}

unfoldable pub code_text : Code → Text
code_text invalid_request = codes "INVALID_REQUEST"
code_text invalid_action = codes "INVALID_ACTION"
code_text model_not_found = codes "MODEL_NOT_FOUND"
code_text decryption_failed = codes "DECRYPTION_FAILED"
code_text feature_dimension_mismatch = codes "FEATURE_DIMENSION_MISMATCH"
code_text inference_failed = codes "INFERENCE_FAILED"
code_text internal_error = codes "INTERNAL_ERROR"

unfoldable pub names : List Text → Items
names [] = nil
names (s ∷ ss) = cons (str s) (names ss)

-- The mapping that `predict` of the engine returns, with the two entries of the handler.
unfoldable pub prediction_fields : Prediction → Bool → Fields
prediction_fields r cached = field (codes "prediction") (float r.prediction) (
    field (codes "confidence") (float r.confidence) (
      field (codes "latency_ms") (float r.latency_ms) (
        field (codes "served_from_cache") (bool cached)
          (field (codes "status") (str (codes "ok")) end))))

unfoldable pub response_fields : (Message → Text) → Response → Fields
unfolding code_text names prediction_fields
response_fields text (predicted r cached) = prediction_fields r cached
response_fields text (health echo count) =
    field (codes "status") (str (codes "ok"))
      (field (codes "echo") echo (field (codes "models_loaded") (int (pos count)) end))
response_fields text (models loaded) =
    field (codes "status") (str (codes "ok")) (field (codes "models") (arr (names loaded)) end)
response_fields text (error code message) =
    field (codes "status") (str (codes "error")) (
      field (codes "code") (str (code_text code))
        (field (codes "message") (str (text message)) end))
