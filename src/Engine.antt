-- ===== src/Engine.antt =====
-- enclave/inference_engine.py: `InferenceEngine`, its LRU map of loaded models, loading of encrypted
-- bundles, and predictions. Each operation returns the engine that it leaves.
pub mod Loading
pub mod Invariant
pub mod Laws
pub mod Threads
use confidential_ml_feature.Prelude.{
  ℕ, ℤ, pos, Bool, true, false, ◌||◌, ◌==◌, not, Option, none, some, List, [], ◌∷◌, ◌++◌, Text,
  Bytes, length, Result, ok, err, ◌>>=◌, ◌>>◌, require, if◌then◌else◌, ◌=ₜ◌,
}
use confidential_ml_feature.Python.Json.{Json}
use confidential_ml_feature.Python.Strip.{strip, is_empty}
use confidential_ml_feature.OrderedDict

-- The message of each `ModelLoadError`.
pub data LoadFailure : Type 0 where
  empty_name empty_weights bundle_not_json bundle_not_object bundle_fields_missing : LoadFailure
  name_mismatch data_key_not_decrypted : LoadFailure
  artifact_not_json artifact_not_object algorithm_unsupported ciphertext_missing : LoadFailure
  artifact_not_decrypted artifact_not_deserialized : LoadFailure
  dimension_invalid dimension_unknown : LoadFailure

-- What the engine's methods raise.
pub data Exception : Type 0 where
  model_load : LoadFailure → Exception
  model_not_loaded : Text → Exception
  no_features : Exception
  dimension_mismatch : ℤ → ℕ → Exception
  prediction_failed : Exception
  value_error type_error overflow_error : Exception

pub record LoadedModel (Model : Type 0) : Type 0 where
  pub model_name : Text
  pub model : Model
  pub feature_dimension : ℤ

-- What the engine takes from outside: the key decryptor, with its state of type `Keys`, and the
-- base64, JSON, AES-GCM, joblib and model operations. `none` is an exception, or for
-- `n_features_in` and `predict_proba` an attribute that the model lacks.
pub record Platform (Keys Model : Type 0) : Type 0 where
  pub decrypt_data_key : Bytes → Text → Keys → Option Bytes × Keys
  pub b64decode : Text → Option Bytes
  pub loads : Bytes → Option Json
  pub dumps : Json → Bytes
  pub aes_gcm_decrypt : Bytes → Bytes → Bytes → Bytes → Option Bytes
  pub joblib_load : Bytes → Option Model
  pub n_features_in : Model → Option ℤ
  pub model_predict : Model → List ℕ → Option ℕ
  pub max_probability : Model → List ℕ → Option ℕ
  pub float_one : ℕ
  pub to_float : Json → Result Exception ℕ

pub record Engine (Keys Model : Type 0) : Type 0 where
  pub models : List (Text × LoadedModel Model)
  pub max_models : ℕ
  pub keys : Keys

pub record Prediction : Type 0 where
  pub prediction : ℕ
  pub confidence : ℕ
  pub latency_ms : ℕ

-- len(features) == expected_dimension
abbrev has_dimension : ℤ → ℕ → Bool
has_dimension (pos n) count = n == count
has_dimension _ count = false

-- `_validate_features`
unfoldable pub validate_features : List ℕ → ℤ → Result Exception (List ℕ)
validate_features [] expected = err no_features
validate_features (x ∷ xs) expected = do
  require (has_dimension expected (length (x ∷ xs))) (dimension_mismatch expected (length (x ∷ xs)))
  ok (x ∷ xs)

module _ {Keys Model : Type 0} where
  -- `is_model_loaded`, of the name as it is given.
  unfoldable pub is_model_loaded : Text → Engine Keys Model → Bool
  is_model_loaded model_name engine = OrderedDict.contains model_name engine.models

  -- `list_loaded_models`
  abbrev pub list_loaded_models : Engine Keys Model → List Text
  list_loaded_models engine = OrderedDict.keys engine.models

  -- `unload_model`
  unfoldable pub unload_model : Text → Engine Keys Model → Engine Keys Model
  unload_model model_name engine = record engine {
    models = OrderedDict.remove (strip model_name) engine.models;
  }

  module _ (p : Platform Keys Model) where
    -- `_compute_confidence`
    unfoldable pub compute_confidence : Model → List ℕ → ℕ
    compute_confidence model features = elim (p.max_probability model features) [
      | none ↦ p.float_one
      | some c ↦ c
    ]

    -- `predict` from the loaded model on; `latency` is what the clock measures.
    unfoldable pub run_model : LoadedModel Model → List ℕ → ℕ → Result Exception Prediction
    unfolding validate_features compute_confidence
    run_model loaded features latency = do
      validated ← validate_features features loaded.feature_dimension
      elim (p.model_predict loaded.model validated) [
        | none ↦ err prediction_failed
        | some raw ↦ ok (record {
          prediction = raw;
          confidence = compute_confidence loaded.model validated;
          latency_ms = latency;
        })
      ]

    -- `predict`
    unfoldable pub predict :
        Text → List ℕ → ℕ → Engine Keys Model → Result Exception Prediction × Engine Keys Model
    predict model_name features latency engine =
        let name = strip model_name in
        if is_empty name
        then (err (model_not_loaded name), engine)
        else elim (OrderedDict.get name engine.models) [
          | none ↦ (err (model_not_loaded name), engine)
          | some loaded ↦ (
            run_model loaded features latency,
            record engine { models = OrderedDict.move_to_end name engine.models },
          )
        ]
