-- ===== src/FeatureStore/Inference/Uncached.antt =====
-- `served_from_cache` of `run_inference`, which always sends the encrypted model along, against
-- `MockEnclaveClient`.
use mathlib.Core.Path.{subst}
use confidential_ml_feature.Prelude.{
  Bytes, List, Bool, ◌=ₜ◌, ℕ, ◌≡◌, refl, inl, inr, false, Option, none, some, arith, if-elim, Text,
  Result, ok, err, Result-cases,
}
use confidential_ml_feature.Python.Codes.{codes}
use confidential_ml_feature.Python.Json.{
  Json, Fields, Items, float, get_field, is_none, as_str, as_list, to_list,
}
use confidential_ml_feature.Engine
use confidential_ml_feature.Engine.{Platform, Engine}
use confidential_ml_feature.Server.{to_floats, is_missing}
use confidential_ml_feature.FeatureStore
use confidential_ml_feature.FeatureStore.{Tenant, InferenceRequest, DataStore}
use confidential_ml_feature.FeatureStore.Inference.{
  respond, Parts, Files, Exception, Predictor, InferenceResponse, call_client, run_inference,
  load_model_artifacts,
}
use confidential_ml_feature.FeatureStore.Service.{prepare_feature_vector}
use confidential_ml_feature.EnclaveClient.Responses
use confidential_ml_feature.EnclaveClient.Responses.{Conversions, normalize}
use confidential_ml_feature.EnclaveClient.Mock

abbrev pub IsUncached : Mock.Response → Type 0
IsUncached (Mock.predicted r cached) = cached ≡ false
IsUncached _ = Unit {0}

handle_exception-IsUncached : (e : Engine.Exception) → IsUncached (Mock.handle_exception e)
unfolding Mock.handle_exception
handle_exception-IsUncached (Engine.model_load e) = tt
handle_exception-IsUncached (Engine.model_not_loaded name) = tt
handle_exception-IsUncached Engine.no_features = tt
handle_exception-IsUncached (Engine.dimension_mismatch n k) = tt
handle_exception-IsUncached Engine.prediction_failed = tt
handle_exception-IsUncached Engine.value_error = tt
handle_exception-IsUncached Engine.type_error = tt
handle_exception-IsUncached Engine.overflow_error = tt

module _ {Keys Model : Type 0} (p : Platform Keys Model) where
  respond-IsUncached :
      (r : Result Engine.Exception Engine.Prediction) → IsUncached (Mock.respond p false r)
  unfolding Mock.respond
  respond-IsUncached (ok r) = refl
  respond-IsUncached (err e) = handle_exception-IsUncached e

  run_prediction-IsUncached :
      (name : Text) (features : Items) (latency : ℕ) (engine : Engine Keys Model)
      → IsUncached (Mock.run_prediction p name features false latency engine).0
  unfolding Mock.run_prediction
  run_prediction-IsUncached name features latency engine =
      elim (Result-cases (to_floats p (to_list features))) [
        | inl (xs, e) ↦ rw (e, Mock.run_prediction) (respond-IsUncached _)
        | inr (x, e) ↦ rw (e, Mock.run_prediction) (handle_exception-IsUncached x)
      ]

  after_load-IsUncached :
      (name : Text) (features : Items) (latency : ℕ)
      (r : Result Engine.Exception (Unit {0}) × Engine Keys Model)
      → IsUncached (Mock.after_load p name features latency r).0
  unfolding Mock.after_load
  after_load-IsUncached name features latency (ok u, engine) =
      run_prediction-IsUncached name features latency engine
  after_load-IsUncached name features latency (err e, engine) = handle_exception-IsUncached e

  load_and_predict-IsUncached :
      (name tenant_id : Text) (features : Items) (key blob : Option Json) (latency : ℕ)
      (engine : Engine Keys Model)
      → is_none blob ≡ false
      → IsUncached (Mock.load_and_predict p name tenant_id features key blob latency engine).0
  unfolding Mock.load_and_predict
  load_and_predict-IsUncached name tenant_id features key blob latency engine h = rw h (
      if-elim (λ (r : Mock.Response × Engine Keys Model). IsUncached r.0) (is_missing (as_str key))
        _ _ (λ _. tt) (λ _. after_load-IsUncached name features latency _))

  checked-IsUncached :
      (name : Option Text) (features : Option Items) (payload : Fields) (latency : ℕ)
      (engine : Engine Keys Model)
      → is_none (get_field (codes "encrypted_model_blob") payload) ≡ false
      → IsUncached (Mock.checked p name features payload latency engine).0
  unfolding Mock.checked
  checked-IsUncached (some name) (some features) payload latency engine h =
      if-elim (λ (r : Mock.Response × Engine Keys Model). IsUncached r.0)
        (is_missing (as_str (get_field (codes "tenant_id") payload))) _ _ (λ _. tt)
        (λ _. load_and_predict-IsUncached name _ features _ _ latency engine h)
  checked-IsUncached none features payload latency engine h = tt
  checked-IsUncached (some name) none payload latency engine h = tt

  send_request-IsUncached :
      (payload : Fields) (latency : ℕ) (engine : Engine Keys Model)
      → is_none (get_field (codes "encrypted_model_blob") payload) ≡ false
      → IsUncached (Mock.send_request p (codes "predict") payload latency engine).0
  unfolding Mock.send_request ◌=ₜ◌
  send_request-IsUncached payload latency engine h =
      checked-IsUncached (as_str (get_field (codes "model_name") payload))
        (as_list (get_field (codes "features") payload)) payload latency engine h

  abbrev Served : Bool → Result Responses.Exception Responses.Prediction → Type 0
  Served cached (ok r) = r.served_from_cache ≡ cached
  Served cached (err e) = Unit {0}

  module _ (text : Mock.Message → Text) (python : Conversions) where
    normalize-IsUncached :
        (response : Mock.Response) (r : Responses.Prediction)
        → ((x : ℕ) → python.to_float (float x) ≡ some x)
        → IsUncached response
        → normalize python (Mock.response_fields text response) ≡ ok r
        → r.served_from_cache ≡ false
    unfolding normalize Mock.response_fields get_field ◌=ₜ◌
    normalize-IsUncached (Mock.predicted q cached) r exact u e =
        subst (Served false) e
          (rw (exact q.prediction) (rw (exact q.confidence) (rw (exact q.latency_ms) u)))
    normalize-IsUncached (Mock.health echo count) r exact u e = absurd (ground (arith, e))
    normalize-IsUncached (Mock.models names) r exact u e = absurd (ground (arith, e))
    normalize-IsUncached (Mock.error code message) r exact u e = absurd (ground (arith, e))

    -- The mock as the client of the route, for a clock that measures the same time at each call.
    abbrev pub mock_client : ℕ → Predictor (Engine Keys Model)
    mock_client latency = record {
      predict = λ name features key blob tenant_id.
          Mock.predict p text python name features key blob tenant_id latency;
      list_models = λ engine. (Mock.list_models p text python latency engine, engine);
    }

    predict-IsUncached :
        (name : Text) (features : List ℕ) (key blob : Bytes) (tenant_id : Option Text) (latency : ℕ)
        (engine : Engine Keys Model) (r : Responses.Prediction)
        → ((x : ℕ) → python.to_float (float x) ≡ some x)
        → (Mock.predict p text python name features key (some blob) tenant_id latency engine).0
          ≡ ok r
        → r.served_from_cache ≡ false
    unfolding Mock.predict Mock.predict_payload get_field ◌=ₜ◌
    predict-IsUncached name features key blob tenant_id latency engine r exact e =
        let payload = Mock.predict_payload p text python name features key (some blob) tenant_id in
        normalize-IsUncached (Mock.send_request p (codes "predict") payload latency engine).0 r
          exact (send_request-IsUncached payload latency engine refl) e

    abbrev Uncached : Result Exception InferenceResponse → Type 0
    Uncached (ok r) = r.served_from_cache ≡ false
    Uncached (err e) = Unit {0}

    module _ {Table : Type 0} (store : DataStore Table) (files : Files) (root : Parts) where
      respond-Served :
          (total_ms : ℕ) (answer : Result Responses.Exception Responses.Prediction)
          (r : InferenceResponse)
          → ((q : Responses.Prediction) → answer ≡ ok q → q.served_from_cache ≡ false)
          → respond total_ms answer ≡ ok r
          → r.served_from_cache ≡ false
      respond-Served total_ms (ok q) r h e = subst Uncached e (h q refl)
      respond-Served total_ms (err x) r h e = absurd (ground (arith, e))

      call_client-IsUncached :
          (tenant : Tenant) (name : Text) (total_ms latency : ℕ)
          (features : Result FeatureStore.Exception (List ℕ))
          (artifacts : Result Exception (Bytes × Bytes)) (engine : Engine Keys Model)
          (r : InferenceResponse)
          → ((x : ℕ) → python.to_float (float x) ≡ some x)
          → (call_client store files root
              (mock_client latency)
              tenant
              name
              total_ms
              features
              artifacts
              engine).0
            ≡ ok r
          → r.served_from_cache ≡ false
      unfolding call_client
      call_client-IsUncached tenant name total_ms latency (ok xs) (ok (blob, key)) engine r exact
            e =
          respond-Served total_ms
            (Mock.predict p text python name xs key (some blob) (some tenant.tenant_id) latency
              engine).0
            r
            (λ q.
              predict-IsUncached name xs key blob (some tenant.tenant_id) latency engine q exact)
            e
      call_client-IsUncached tenant name total_ms latency (ok xs) (err x) engine r exact e =
          absurd (ground (arith, e))
      call_client-IsUncached tenant name total_ms latency (err x) artifacts engine r exact e =
          absurd (ground (arith, e))

      -- Where `float` of a float is that float, and the client is the mock: no response of the route
      -- says that it was served from the cache.
      pub run_inference-IsUncached :
          (tenant : Tenant) (payload : InferenceRequest) (table : Table) (total_ms latency : ℕ)
          (engine : Engine Keys Model) (r : InferenceResponse)
          → ((x : ℕ) → python.to_float (float x) ≡ some x)
          → (run_inference store files root
              (mock_client latency)
              tenant
              payload
              table
              total_ms
              engine).0
            ≡ ok r
          → r.served_from_cache ≡ false
      unfolding run_inference
      run_inference-IsUncached tenant payload table total_ms latency engine r exact e =
          call_client-IsUncached tenant payload.model_name total_ms latency
            (prepare_feature_vector store tenant payload table)
            (load_model_artifacts files root tenant.tenant_id payload.model_name) engine r exact e
