-- ===== src/FeatureStore/Web.antt =====
-- feature_store/utils/exceptions.py, feature_store/routers/features.py and the health route: the
-- routes behind `get_current_tenant`, and the JSON responses that exceptions become, without their
-- texts and times. What a request's body or query holds is already validated.
pub mod Logging
pub mod Isolation
use confidential_ml_feature.Prelude.{
  ℕ, Bool, true, false, Option, none, some, List, [], ◌∷◌, Text, Result, ok, err, if◌then◌else◌,
}
use confidential_ml_feature.Python.Codes.{codes}
use confidential_ml_feature.FeatureStore.{Tenant, FeatureSetCreate, FeatureSetResponse, DataStore}
use confidential_ml_feature.FeatureStore
use confidential_ml_feature.FeatureStore.Auth.{get_current_tenant}
use confidential_ml_feature.FeatureStore.Service
use confidential_ml_feature.FeatureStore.Inference.{
  Exception, service_error, client_error, artifact_not_found, artifact_invalid, os_error,
}
use confidential_ml_feature.EnclaveClient
use confidential_ml_feature.EnclaveClient.Responses
use confidential_ml_feature.Wire.{no_vsock}

-- `status_code` and `error_code` of an AppException, and `none` of any other exception.
pub record AppError : Type 0 where
  pub status_code : ℕ
  pub error_code : Text

abbrev app_error : ℕ → Text → Option AppError
app_error status code = some (record { status_code = status; error_code = code })

-- The exceptions of the services and of `get_current_tenant`.
unfoldable pub service_app_error : FeatureStore.Exception → Option AppError
service_app_error FeatureStore.missing_headers = app_error 401 (codes "unauthorized_access")
service_app_error FeatureStore.invalid_credentials = app_error 401 (codes "unauthorized_access")
service_app_error FeatureStore.inactive_tenant = app_error 401 (codes "unauthorized_access")
service_app_error FeatureStore.forbidden_access = app_error 403 (codes "forbidden_access")
service_app_error FeatureStore.feature_set_conflict = app_error 409 (codes "feature_set_conflict")
service_app_error FeatureStore.feature_set_not_found = app_error 404 (codes "feature_set_not_found")
service_app_error FeatureStore.no_features = app_error 404 (codes "feature_set_not_found")
service_app_error FeatureStore.tenant_not_found = app_error 404 (codes "tenant_not_found")
service_app_error FeatureStore.data_store_error = app_error 500 (codes "data_store_error")
service_app_error _ = none

-- The exceptions of `EnclaveClient`, which are an EnclaveCommunicationError but for three.
unfoldable pub client_app_error : Responses.Exception → Option AppError
client_app_error (Responses.request_failed EnclaveClient.timeout) =
    app_error 502 (codes "enclave_timeout")
client_app_error (Responses.request_failed EnclaveClient.communication) =
    app_error 502 (codes "enclave_communication_error")
client_app_error (Responses.request_failed EnclaveClient.malformed) =
    app_error 502 (codes "malformed_enclave_response")
client_app_error (Responses.request_failed (EnclaveClient.uncaught no_vsock)) =
    app_error 502 (codes "enclave_communication_error")
client_app_error (Responses.request_failed (EnclaveClient.uncaught e)) = none
client_app_error (Responses.remote_model_not_found message) =
    app_error 404 (codes "remote_model_not_found")
client_app_error (Responses.remote_dimension_mismatch message) =
    app_error 400 (codes "feature_dimension_mismatch")
client_app_error (Responses.remote_invalid_request message) =
    app_error 400 (codes "invalid_enclave_request")
client_app_error (Responses.remote_failure message) =
    app_error 502 (codes "enclave_communication_error")
client_app_error Responses.malformed_response = app_error 502 (codes "malformed_enclave_response")
client_app_error Responses.invalid_model_list = app_error 502 (codes "malformed_enclave_response")
client_app_error Responses.no_model_list = app_error 502 (codes "enclave_communication_error")
client_app_error Responses.not_a_float = none

unfoldable pub as_app_error : Exception → Option AppError
unfolding service_app_error client_app_error
as_app_error (service_error e) = service_app_error e
as_app_error (client_error e) = client_app_error e
as_app_error artifact_not_found = app_error 404 (codes "model_artifact_not_found")
as_app_error artifact_invalid = app_error 400 (codes "invalid_model_artifact")
as_app_error os_error = none

-- `_error_payload`, without the text and the time.
pub record ErrorPayload : Type 0 where
  pub error : Text
  pub request_id : Option Text

pub record JsonResponse : Type 0 where
  pub status_code : ℕ
  pub content : ErrorPayload

abbrev error_payload : Option Text → Text → ErrorPayload
error_payload request_id error_code = record { error = error_code; request_id = request_id }

-- `handle_app_exception`
unfoldable pub handle_app_exception : Option Text → AppError → JsonResponse
handle_app_exception request_id e = record {
  status_code = e.status_code;
  content = error_payload request_id e.error_code;
}

-- `handle_unexpected_error`
unfoldable pub handle_unexpected_error : Option Text → JsonResponse
handle_unexpected_error request_id = record {
  status_code = 500;
  content = error_payload request_id (codes "internal_server_error");
}

-- The handler that is registered for the exception's class.
unfoldable pub handle_exception : Option Text → Exception → JsonResponse
unfolding as_app_error handle_app_exception handle_unexpected_error
handle_exception request_id e = elim (as_app_error e) [
  | some a ↦ handle_app_exception request_id a
  | none ↦ handle_unexpected_error request_id
]

-- X-Tenant-ID and X-API-Key of a request.
pub record Credentials : Type 0 where
  pub x_tenant_id : Option Text
  pub x_api_key : Option Text

-- The four routes of features.py; a get, a list and a delete may name a tenant.
pub data Route : Type 0 where
  create_route : FeatureSetCreate → Route
  get_route : Text → Option Text → Route
  list_route : Option Text → Route
  delete_route : Text → Option Text → Route

-- What they return, with the status of the decorator: 201, 200, 200 and 204.
pub data Reply : Type 0 where
  created : FeatureSetResponse → Reply
  found : FeatureSetResponse → Reply
  listed : List FeatureSetResponse → Reply
  deleted : Reply

abbrev pub reply_status : Reply → ℕ
reply_status (created r) = 201
reply_status (found r) = 200
reply_status (listed rs) = 200
reply_status deleted = 204

unfoldable pub lift {ℓ κ} :
    {A : Type ℓ} {B : Type κ}
    → (A → B)
    → Result FeatureStore.Exception A
    → Result FeatureStore.Exception B
lift f (ok a) = ok (f a)
lift f (err e) = err e

unfoldable pub respond :
    Option Text → Result FeatureStore.Exception Reply → Result JsonResponse Reply
unfolding handle_exception
respond request_id (ok reply) = ok reply
respond request_id (err e) = err (handle_exception request_id (service_error e))

module _ {Table : Type 0} (store : DataStore Table) where
  -- The bodies of the four routes.
  unfoldable pub run_route : Route → Tenant → Table → Result FeatureStore.Exception Reply × Table
  unfolding lift
  run_route (create_route payload) tenant table =
      let (r, table') = Service.create_feature_set store tenant payload table in
      (lift created r, table')
  run_route (get_route name requested) tenant table =
      (lift found (Service.get_feature_set store tenant name requested table), table)
  run_route (list_route requested) tenant table =
      (lift listed (Service.list_feature_sets store tenant requested table), table)
  run_route (delete_route name requested) tenant table =
      let (r, table') = Service.delete_feature_set store tenant name requested table in
      (lift (λ _. deleted) r, table')

  unfoldable pub run_for :
      Result FeatureStore.Exception Tenant
      → Route
      → Table
      → Result FeatureStore.Exception Reply × Table
  unfolding run_route
  run_for (ok tenant) route table = run_route route tenant table
  run_for (err e) route table = (err e, table)

  -- A route behind its dependency `get_current_tenant`.
  unfoldable pub call_route :
      Credentials → Route → Table → Result FeatureStore.Exception Reply × Table
  unfolding run_for
  call_route c route table =
      run_for (get_current_tenant store c.x_tenant_id c.x_api_key table) route table

  -- The reply, or the JSON response that the exception becomes.
  unfoldable pub answer_route :
      Option Text → Credentials → Route → Table → Result JsonResponse Reply × Table
  unfolding call_route
  answer_route request_id c route table =
      let (r, table') = call_route c route table in (respond request_id r, table')

-- `HealthCheckResponse`
pub record HealthCheckResponse : Type 0 where
  pub status : Text
  pub version : Text
  pub reachable : Bool
  pub table_name : Text

-- `health`, with what `check_connectivity` returns.
unfoldable pub health : Bool → Text → Text → HealthCheckResponse
health reachable version table_name = record {
  status = if reachable then codes "ok" else codes "degraded";
  version = version;
  reachable = reachable;
  table_name = table_name;
}
