-- ===== src/FeatureStore/Inference.antt =====
-- feature_store/routers/inference.py: the two routes and the model artifacts that they read. The
-- files are a parameter, and so is the client, which is the enclave's or the mock; the root
-- directory is absolute, as `resolve` makes it. The parts of a path are those that `pathlib` keeps.
pub mod Directory
pub mod Uncached
use confidential_ml_feature.Prelude.{
  ℕ, ◌/◌, Bool, true, false, ◌&&◌, ◌||◌, not, Option, none, some, List, [], ◌∷◌, ◌++◌, ◌==◌, ◌=ₜ◌,
  if◌then◌else◌, Text, Bytes, Result, ok, err, ◌>>=◌, ◌>>◌,
}
use confidential_ml_feature.Python.Codes.{codes}
use confidential_ml_feature.Python.Strip.{is_empty}
use confidential_ml_feature.FeatureStore.{Tenant, InferenceRequest, DataStore}
use confidential_ml_feature.FeatureStore
use confidential_ml_feature.FeatureStore.Service.{prepare_feature_vector, text_leb}
use confidential_ml_feature.EnclaveClient.{uncaught}
use confidential_ml_feature.EnclaveClient.Responses
use confidential_ml_feature.EnclaveClient.Responses.{Prediction}
use confidential_ml_feature.Wire.{no_vsock}

abbrev pub Parts : Type 0
Parts = List Text

-- `is_file`, `read_bytes` with `none` for an OSError, `is_dir`, `exists`, and the names that `iterdir`
-- gives, with `none` for an OSError.
pub record Files : Type 0 where
  pub is_file : Parts → Bool
  pub read_bytes : Parts → Option Bytes
  pub is_dir : Parts → Bool
  pub exists : Parts → Bool
  pub iterdir : Parts → Option (List Text)

-- `predict` and `list_models` of the client.
pub record Predictor (State : Type 0) : Type 0 where
  pub predict :
      Text
      → List ℕ
      → Bytes
      → Option Bytes
      → Option Text
      → State
      → Result Responses.Exception Prediction × State
  pub list_models : State → Result Responses.Exception (List Text) × State

pub data Exception : Type 0 where
  service_error : FeatureStore.Exception → Exception
  client_error : Responses.Exception → Exception
  artifact_not_found artifact_invalid os_error : Exception

pub record InferenceResponse : Type 0 where
  pub prediction : ℕ
  pub confidence : ℕ
  pub latency_ms : ℕ
  pub served_from_cache : Bool

-- The pieces of a text between its slashes.
unfoldable pub split_slash : Text → List Text
split_slash [] = [] ∷ []
split_slash (c ∷ s) =
    let rest = split_slash s in
    if c == 47 then [] ∷ rest else elim rest [ [] ↦ (c ∷ []) ∷ [] | p ∷ ps ↦ (c ∷ p) ∷ ps ]

-- The pieces that are neither empty nor a single dot.
unfoldable pub keep_parts : List Text → Parts
keep_parts [] = []
keep_parts (p ∷ ps) =
    let rest = keep_parts ps in if is_empty p || p =ₜ codes "." then rest else p ∷ rest

abbrev pub is_absolute : Text → Bool
is_absolute [] = false
is_absolute (c ∷ s) = c == 47

-- path / name, where an absolute name replaces the path.
unfoldable pub join : Parts → Text → Parts
unfolding split_slash keep_parts
join path name =
    if is_absolute name
    then keep_parts (split_slash name)
    else path ++ keep_parts (split_slash name)

abbrev pub model_directory : Parts → Text → Text → Parts
model_directory root tenant_id model_name = join (join root tenant_id) model_name

abbrev pub encrypted_model_path : Parts → Parts
encrypted_model_path directory = directory ++ codes "encrypted_model.bin" ∷ []

abbrev pub encrypted_key_path : Parts → Parts
encrypted_key_path directory = directory ++ codes "encrypted_data_key.bin" ∷ []

-- The two files read: the error where one cannot be, or is empty.
unfoldable pub checked_artifacts : Option Bytes → Option Bytes → Result Exception (Bytes × Bytes)
checked_artifacts (some (b ∷ bs)) (some (c ∷ cs)) = ok (b ∷ bs, c ∷ cs)
checked_artifacts (some blob) (some key) = err artifact_invalid
checked_artifacts _ _ = err os_error

module _ (files : Files) (root : Parts) where
  -- `_load_model_artifacts`
  unfoldable pub load_model_artifacts : Text → Text → Result Exception (Bytes × Bytes)
  unfolding checked_artifacts
  load_model_artifacts tenant_id model_name =
      let model = encrypted_model_path (model_directory root tenant_id model_name) in
      let key = encrypted_key_path (model_directory root tenant_id model_name) in
      if not (files.is_file model) || not (files.is_file key)
      then err artifact_not_found
      else checked_artifacts (files.read_bytes model) (files.read_bytes key)

  -- The test of the comprehension, on a name in the tenant's directory.
  abbrev pub is_stored : Parts → Text → Bool
  is_stored directory name =
      files.is_dir (directory ++ name ∷ [])
      && (files.is_file (encrypted_model_path (directory ++ name ∷ []))
          && files.is_file (encrypted_key_path (directory ++ name ∷ [])))

  unfoldable pub keep_stored : Parts → List Text → List Text
  keep_stored directory [] = []
  keep_stored directory (name ∷ names) =
      let rest = keep_stored directory names in
      if is_stored directory name then name ∷ rest else rest

  -- `_list_stored_models`
  unfoldable pub list_stored_models : Text → Result Exception (List Text)
  unfolding keep_stored
  list_stored_models tenant_id =
      let directory = join root tenant_id in
      if not (files.exists directory) then ok [] else elim (files.iterdir directory) [
        | none ↦ err os_error
        | some names ↦ ok (keep_stored directory names)
      ]

unfoldable pub insert_text : Text → List Text → List Text
insert_text t [] = t ∷ []
insert_text t (s ∷ ss) =
    let rest = insert_text t ss in if text_leb t s then t ∷ s ∷ ss else s ∷ rest

-- sorted(_)
unfoldable pub sort_texts : List Text → List Text
sort_texts [] = []
sort_texts (s ∷ ss) = insert_text s (sort_texts ss)

-- Whether the exception is an EnclaveCommunicationError.
unfoldable pub is_communication : Responses.Exception → Bool
is_communication (Responses.request_failed (uncaught no_vsock)) = true
is_communication (Responses.request_failed (uncaught e)) = false
is_communication (Responses.request_failed e) = true
is_communication (Responses.remote_failure message) = true
is_communication Responses.malformed_response = true
is_communication Responses.invalid_model_list = true
is_communication Responses.no_model_list = true
is_communication _ = false

-- The names that the client lists, or none where it cannot reach the enclave.
unfoldable pub loaded_or_none :
    Result Responses.Exception (List Text) → Result Exception (List Text)
unfolding sort_texts is_communication
loaded_or_none (ok names) = ok (sort_texts names)
loaded_or_none (err e) = if is_communication e then ok [] else err (client_error e)

-- The response, with the time that the route took.
abbrev pub respond : ℕ → Result Responses.Exception Prediction → Result Exception InferenceResponse
respond total_ms (ok r) = ok (record {
  prediction = r.prediction;
  confidence = r.confidence;
  latency_ms = total_ms;
  served_from_cache = r.served_from_cache;
})
respond total_ms (err e) = err (client_error e)

module _ {Table State : Type 0} (store : DataStore Table) (files : Files) (root : Parts)
    (client : Predictor State) where
  -- The call of the client, with the feature vector and the artifacts.
  unfoldable pub call_client :
      Tenant
      → Text
      → ℕ
      → Result FeatureStore.Exception (List ℕ)
      → Result Exception (Bytes × Bytes)
      → State
      → Result Exception InferenceResponse × State
  call_client tenant model_name total_ms (err e) artifacts st = (err (service_error e), st)
  call_client tenant model_name total_ms (ok features) (err e) st = (err e, st)
  call_client tenant model_name total_ms (ok features) (ok (blob, key)) st =
      let (r, st') =
        client.predict model_name features key (some blob) (some tenant.tenant_id) st in
      (respond total_ms r, st')

  -- `run_inference`
  unfoldable pub run_inference :
      Tenant → InferenceRequest → Table → ℕ → State → Result Exception InferenceResponse × State
  unfolding call_client
  run_inference tenant payload table total_ms st =
      call_client tenant payload.model_name total_ms
        (prepare_feature_vector store tenant payload table)
        (load_model_artifacts files root tenant.tenant_id payload.model_name) st

  -- `list_available_models`
  unfoldable pub list_available_models :
      Tenant → State → Result Exception (List Text × List Text) × State
  unfolding loaded_or_none
  list_available_models tenant st = elim (list_stored_models files root tenant.tenant_id) [
    | err e ↦ (err e, st)
    | ok stored ↦
        let (r, st') = client.list_models st in
        (do loaded ← loaded_or_none r; ok (sort_texts stored, loaded), st')
  ]
