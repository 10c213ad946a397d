-- ===== src/EnclaveClient/Mock/Outcomes.antt =====
-- The parts of `MockEnclaveClient.send_request` against those of `_handle_predict` of
-- enclave/server.py: the same outcome and the same engine.
use confidential_ml_feature.EnclaveClient.Mock.{as_list, str}
use confidential_ml_feature.Prelude.{
  ℕ, ◌≡◌, refl, inl, inr, Bool, true, false, not, Option, none, some, List, if◌then◌else◌, Text,
  Result, ok, err, Result-cases,
}
use confidential_ml_feature.Python.Codes.{codes}
use confidential_ml_feature.Python.Strip.{strip, is_empty}
use confidential_ml_feature.Python.Json.{Json, Items, Fields, get_field, as_str, is_none, to_list}
use confidential_ml_feature.Engine.{
  Exception, Platform, Engine, Prediction, model_load, model_not_loaded, no_features,
  dimension_mismatch, prediction_failed, value_error, type_error, overflow_error, is_model_loaded,
}
use confidential_ml_feature.Engine
use confidential_ml_feature.Server
use confidential_ml_feature.Server.{
  Code, invalid_request, invalid_action, model_not_found, decryption_failed,
  feature_dimension_mismatch, inference_failed, internal_error, is_missing, is_blank, text_or_empty,
  echo_or_ping, json_or_null, to_floats, load_bundle_bytes,
}
use confidential_ml_feature.EnclaveClient.Mock

-- A response without its messages.
pub data Outcome : Type 0 where
  predicts : Prediction → Bool → Outcome
  reports : Json → ℕ → Outcome
  lists : List Text → Outcome
  refuses : Code → Outcome

abbrev pub mock_outcome : Mock.Response → Outcome
mock_outcome (Mock.predicted r cached) = predicts r cached
mock_outcome (Mock.health echo count) = reports echo count
mock_outcome (Mock.models names) = lists names
mock_outcome (Mock.error code message) = refuses code

-- The mock has no codes of its own for the errors that its last clause catches.
abbrev pub mock_code : Code → Code
mock_code inference_failed = invalid_request
mock_code internal_error = invalid_request
mock_code code = code

abbrev pub server_outcome : Server.Response → Outcome
server_outcome (Server.predicted r cached) = predicts r cached
server_outcome (Server.health echo count) = reports echo count
server_outcome (Server.models names) = lists names
server_outcome (Server.error code message) = refuses (mock_code code)

-- A text, if there is one, that `strip` leaves something of.
abbrev pub NotBlank : Option Text → Type 0
NotBlank none = Unit {0}
NotBlank (some s) = is_empty (strip s) ≡ false

handle_exception-same :
    (e : Exception)
    → mock_outcome (Mock.handle_exception e) ≡ server_outcome (Server.handle_exception e)
unfolding Mock.handle_exception Server.handle_exception
handle_exception-same (model_load e) = refl
handle_exception-same (model_not_loaded name) = refl
handle_exception-same no_features = refl
handle_exception-same (dimension_mismatch n k) = refl
handle_exception-same prediction_failed = refl
handle_exception-same value_error = refl
handle_exception-same type_error = refl
handle_exception-same overflow_error = refl

module _ {Keys Model : Type 0} (p : Platform Keys Model) where
  -- The same outcome and the same engine.
  abbrev pub Agree :
      Mock.Response × Engine Keys Model → Server.Response × Engine Keys Model → Type 0
  Agree m s = (mock_outcome m.0 ≡ server_outcome s.0) × (m.1 ≡ s.1)

  pub if-Agree :
      (b : Bool) (x y : Mock.Response × Engine Keys Model)
      (x' y' : Server.Response × Engine Keys Model)
      → Agree x x'
      → Agree y y'
      → Agree (if b then x else y) (if b then x' else y')
  if-Agree true x y x' y' a c = a
  if-Agree false x y x' y' a c = c

  -- The same test, negated on the mock's side.
  pub crossed :
      (b : Bool) (x y : Mock.Response × Engine Keys Model)
      (x' y' : Server.Response × Engine Keys Model)
      → Agree x y'
      → Agree y x'
      → Agree (if not b then x else y) (if b then x' else y')
  crossed true x y x' y' a c = c
  crossed false x y x' y' a c = a

  refused :
      (b : Bool) (m m' : Server.Message) (engine : Engine Keys Model)
      → Agree
          (Mock.error invalid_request Mock.name_and_features_required, engine)
          (if b
            then (Server.error invalid_request m, engine)
            else (Server.error invalid_request m', engine))
  refused true m m' engine = (refl, refl)
  refused false m m' engine = (refl, refl)

  respond-same :
      (cached : Bool) (r : Result Exception Prediction)
      → mock_outcome (Mock.respond p cached r) ≡ server_outcome (Server.respond p cached r)
  unfolding Mock.respond Server.respond
  respond-same cached (ok r) = refl
  respond-same cached (err e) = handle_exception-same e

  run_prediction-Agree :
      (name : Text) (features : Items) (cached : Bool) (latency : ℕ) (engine : Engine Keys Model)
      → Agree
          (Mock.run_prediction p name features cached latency engine)
          (Server.run_prediction p name features cached latency engine)
  unfolding Mock.run_prediction Server.run_prediction
  run_prediction-Agree name features cached latency engine =
      elim (Result-cases (to_floats p (to_list features))) [
        | inl (xs, e) ↦
            rw (e, Mock.run_prediction, Server.run_prediction)
              (respond-same cached (Engine.predict p name xs latency engine).0, refl)
        | inr (x, e) ↦
            rw (e, Mock.run_prediction, Server.run_prediction) (handle_exception-same x, refl)
      ]

  after_load-Agree :
      (name : Text) (features : Items) (latency : ℕ)
      (r : Result Exception (Unit {0}) × Engine Keys Model)
      → Agree
          (Mock.after_load p name features latency r)
          (Server.after_load p name features latency r)
  unfolding Mock.after_load Server.after_load
  after_load-Agree name features latency (ok u, engine) =
      run_prediction-Agree name features false latency engine
  after_load-Agree name features latency (err e, engine) = (handle_exception-same e, refl)

  load_and_predict-Agree :
      (name tenant_id : Text) (features : Items) (key blob : Option Json) (latency : ℕ)
      (engine : Engine Keys Model)
      → Agree
          (Mock.load_and_predict p name tenant_id features key blob latency engine)
          (Server.load_and_predict p name tenant_id features key blob latency engine)
  unfolding Mock.load_and_predict Server.load_and_predict
  load_and_predict-Agree name tenant_id features key blob latency engine =
      if-Agree (not (is_none blob)) _ _ _ _
        (if-Agree (is_missing (as_str key)) _ _ _ _ (refl, refl)
          (after_load-Agree name features latency _))
        (if-Agree (not (is_model_loaded name engine)) _ _ _ _ (refl, refl)
          (run_prediction-Agree name features (is_model_loaded name engine) latency engine))

  -- `handle_predict` of a request whose name and features have the types that they should have.
  pub checked-Agree :
      (name tenant_id : Option Text) (features : Option Items) (request : Fields) (latency : ℕ)
      (engine : Engine Keys Model)
      → as_str (get_field (codes "tenant_id") request) ≡ tenant_id
      → NotBlank name
      → is_blank tenant_id ≡ is_missing tenant_id
      → Agree (Mock.checked p name features request latency engine) (
          if is_blank name
          then (Server.error invalid_request Server.model_name_required, engine)
          else if is_blank tenant_id
          then (Server.error invalid_request Server.tenant_id_required, engine)
          else elim features as (λ _. Server.Response × Engine Keys Model) [
            | none ↦ (Server.error invalid_request Server.features_not_list, engine)
            | some fs ↦
                Server.load_and_predict p
                  (text_or_empty name)
                  (text_or_empty tenant_id)
                  fs
                  (get_field (codes "encrypted_model_key") request)
                  (get_field (codes "encrypted_model_blob") request)
                  latency
                  engine
          ])
  unfolding Mock.checked
  checked-Agree none tenant_id features request latency engine t n h = (refl, refl)
  checked-Agree (some name) tenant_id none request latency engine t n h =
      rw n (refused (is_blank tenant_id) Server.tenant_id_required Server.features_not_list engine)
  checked-Agree (some name) tenant_id (some fs) request latency engine t n h =
      rw (n, t, h)
        (if-Agree (is_missing tenant_id) _ _ _ _ (refl, refl)
          (load_and_predict-Agree name (text_or_empty tenant_id) fs
            (get_field (codes "encrypted_model_key") request)
            (get_field (codes "encrypted_model_blob") request) latency engine))
