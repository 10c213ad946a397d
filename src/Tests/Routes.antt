-- ===== src/Tests/Routes.antt =====
-- The routes on two tenants with one model each, and the mock on an engine without models.
use confidential_ml_feature.Prelude.{
  ℕ, ◌≡◌, refl, true, false, Bool, Option, none, some, [], ◌∷◌, ◌=ₜ◌, if◌then◌else◌, Text, Bytes,
  length, ok, pos,
}
use confidential_ml_feature.Python.Codes.{codes}
use confidential_ml_feature.Python.Json.{Fields, str, get_field, set_field, as_str}
use confidential_ml_feature.Python.Strip.{strip, lstrip}
use confidential_ml_feature.Engine.{Platform, Engine}
use confidential_ml_feature.Tests.Network.{python}
use confidential_ml_feature.Engine
use confidential_ml_feature.OrderedDict
use confidential_ml_feature.Engine.Loading.{load_model}
use confidential_ml_feature.EnclaveClient.Responses.{floats, normalize}
use confidential_ml_feature.Server.Rendering.{prediction_fields}
use confidential_ml_feature.FeatureStore.Service.{
  prepare_feature_vector, ensure_tenant_access, feature_vector, sort_items, insert_sorted,
}
use confidential_ml_feature.Server.{
  load_bundle_bytes, to_floats, is_blank, is_missing, dispatch_request,
}
use confidential_ml_feature.FeatureStore.{Tenant, InferenceRequest, FeatureSetResponse, DataStore}
use confidential_ml_feature.FeatureStore.Inference.{
  Parts, Files, InferenceResponse, load_model_artifacts, run_inference, call_client,
  checked_artifacts, join, split_slash, keep_parts,
}
use confidential_ml_feature.FeatureStore.Inference.Directory.{
  IsPlain, IsDirectory, SameAt, escaping, load_model_artifacts_own, load_model_artifacts_escapes,
}
use confidential_ml_feature.FeatureStore.Inference.Uncached.{mock_client, run_inference-IsUncached}
use confidential_ml_feature.EnclaveClient.Mock
use confidential_ml_feature.EnclaveClient.Mock.Outcomes.{NotBlank, Agree}
use confidential_ml_feature.EnclaveClient.Mock.Equivalence.{send_request-dispatch_request}

-- The path without the ways up at its start.
abbrev resolve : Parts → Parts
resolve [] = []
resolve (p ∷ []) = p ∷ []
resolve (p ∷ q ∷ rest) = let r = resolve rest in if q =ₜ codes ".." then r else p ∷ q ∷ rest

abbrev is_below : Parts → Bool
is_below (tenant ∷ model ∷ file ∷ []) = true
is_below _ = false

-- A file holds the name of its tenant.
abbrev tenant_of : Parts → Option Bytes
tenant_of [] = none
tenant_of (tenant ∷ rest) = some tenant

abbrev files : Files
files = record {
  is_file = λ path. is_below (resolve path);
  read_bytes = λ path. tenant_of (resolve path);
  is_dir = λ path. true;
  exists = λ path. true;
  iterdir = λ path. some [];
}

abbrev tenant_a : Text
tenant_a = codes "a"

abbrev tenant_b : Text
tenant_b = codes "b"

abbrev model : Text
model = codes "m"

a-IsPlain : IsPlain tenant_a
unfolding ◌=ₜ◌
a-IsPlain = record { some_text = refl; no_slash = (refl, tt); not_dot = refl; not_parent = refl }

b-IsPlain : IsPlain tenant_b
unfolding ◌=ₜ◌
b-IsPlain = record { some_text = refl; no_slash = (refl, tt); not_dot = refl; not_parent = refl }

m-IsPlain : IsPlain model
unfolding ◌=ₜ◌
m-IsPlain = record { some_text = refl; no_slash = (refl, tt); not_dot = refl; not_parent = refl }

a-IsDirectory : IsDirectory files [] tenant_a
unfolding ◌=ₜ◌
a-IsDirectory rest = record { is_file = refl; read_bytes = refl }

load_model_artifacts_escapes_example :
    load_model_artifacts files [] tenant_a (escaping tenant_b model)
    ≡ load_model_artifacts files [] tenant_b model
load_model_artifacts_escapes_example =
    load_model_artifacts_escapes files [] tenant_a tenant_b model a-IsPlain b-IsPlain m-IsPlain
      a-IsDirectory

-- The files after those of the other tenants have lost what they held.
abbrev kept : Parts → Option Bytes
kept [] = none
kept (t ∷ rest) = if t =ₜ tenant_a then tenant_of (t ∷ rest) else none

abbrev changed : Files
changed = record files { read_bytes = kept }

changed_same :
    (file : Text)
    → SameAt files changed (tenant_a ∷ model ∷ file ∷ []) (tenant_a ∷ model ∷ file ∷ [])
unfolding ◌=ₜ◌
changed_same file = record { is_file = refl; read_bytes = refl }

load_model_artifacts_own_example :
    load_model_artifacts files [] tenant_a model ≡ load_model_artifacts changed [] tenant_a model
load_model_artifacts_own_example =
    load_model_artifacts_own files changed [] tenant_a model a-IsPlain m-IsPlain changed_same

abbrev tenant : Tenant
tenant = record {
  tenant_id = tenant_a;
  api_key = codes "k";
  created_at = 0;
  is_active = true;
  allowed_models = [];
}

abbrev stored : FeatureSetResponse
stored = record {
  tenant_id = tenant_a;
  feature_set_name = codes "s";
  features = (codes "x", 5) ∷ [];
  created_at = 0;
  updated_at = 0;
  version = 1;
}

abbrev store : DataStore (Unit {0})
store = record {
  put_feature_set = λ payload table. (ok stored, table);
  get_feature_set = λ tenant_id name table. ok stored;
  list_feature_sets = λ tenant_id table. ok (stored ∷ []);
  delete_feature_set = λ tenant_id name table. (ok tt, table);
  batch_get_feature_sets = λ tenant_id names table. ok (stored ∷ []);
  get_tenant_record = λ tenant_id table. ok tenant;
}

abbrev payload : InferenceRequest
payload = record { tenant_id = tenant_a; feature_set_name = codes "s"; model_name = model }

-- A platform that decodes every blob as it is, with the bundle's text as a field's name.
abbrev platform : Platform (Unit {0}) ℕ
platform = record {
  decrypt_data_key = λ key tenant keys. (some key, keys);
  b64decode = λ s. some s;
  loads = λ b. none;
  dumps = λ v. 1 ∷ [];
  aes_gcm_decrypt = λ key nonce ciphertext aad. some ciphertext;
  joblib_load = λ b. some (length b);
  n_features_in = λ m. some (pos 1);
  model_predict = λ m xs. some m;
  max_probability = λ m xs. none;
  float_one = 1;
  to_float = λ v. ok 4;
}

abbrev engine : Engine (Unit {0}) ℕ
engine = record {
  models = (model, record { model_name = model; model = 7; feature_dimension = pos 1 }) ∷ [];
  max_models = 2;
  keys = tt;
}

abbrev text : Mock.Message → Text
text m = []

abbrev response : InferenceResponse
response = record { prediction = 7; confidence = 1; latency_ms = 9; served_from_cache = false }

responded :
    (run_inference store files [] (mock_client platform text python 3) tenant payload tt 9 engine).0
    ≡ ok response
unfolding run_inference call_client prepare_feature_vector ensure_tenant_access feature_vector
    sort_items insert_sorted load_model_artifacts checked_artifacts join split_slash keep_parts
    Mock.predict Mock.predict_payload floats Mock.send_request Mock.checked Mock.load_and_predict
    Mock.after_load Mock.run_prediction Mock.respond Mock.response_fields prediction_fields
    to_floats load_model Engine.predict Engine.run_model Engine.is_model_loaded OrderedDict.contains
    OrderedDict.get OrderedDict.move_to_end load_bundle_bytes normalize get_field strip lstrip ◌=ₜ◌
responded = refl

run_inference-IsUncached_example : response.served_from_cache ≡ false
run_inference-IsUncached_example =
    run_inference-IsUncached platform text python store files [] tenant payload tt 9 3 engine
      response (λ v. refl) responded

abbrev request : Fields
request = Mock.predict_payload platform text python model (4 ∷ []) (1 ∷ []) none (some tenant_a)

model_given : NotBlank (as_str (get_field (codes "model_name") request))
unfolding get_field Mock.predict_payload strip lstrip ◌=ₜ◌
model_given = refl

tenant_given :
    is_blank (as_str (get_field (codes "tenant_id") request))
    ≡ is_missing (as_str (get_field (codes "tenant_id") request))
unfolding get_field Mock.predict_payload strip lstrip ◌=ₜ◌
tenant_given = refl

send_request-dispatch_request_example :
    Agree platform (Mock.send_request platform (codes "predict") request 3 engine) (
      dispatch_request platform
        (set_field (codes "action") (str (codes "predict")) request)
        3
        engine)
send_request-dispatch_request_example =
    send_request-dispatch_request platform (codes "predict") request 3 engine model_given
      tenant_given
