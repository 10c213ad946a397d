-- ===== src/EnclaveClient/Mock/Equivalence.antt =====
-- `MockEnclaveClient.send_request` against `_dispatch_request` of enclave/server.py.
use confidential_ml_feature.EnclaveClient.Mock.{as_list, str}
use mathlib.Core.Path.{subst}
use confidential_ml_feature.Prelude.{
  ℕ, ◌≡◌, refl, sym, ap, inl, inr, false, ◌=ₜ◌, Option-cases, Text, length,
}
use confidential_ml_feature.Python.Codes.{codes}
use confidential_ml_feature.Python.Json.{set_field, Fields, get_field, as_str}
use confidential_ml_feature.Python.Json.Lookup.{get_field-set_field_same, get_field-set_field_other}
use confidential_ml_feature.Engine.{Platform, Engine}
use confidential_ml_feature.Server
use confidential_ml_feature.Server.{
  Code, invalid_request, invalid_action, model_not_found, decryption_failed,
  feature_dimension_mismatch, inference_failed, internal_error, is_missing, is_blank, text_or_empty,
  echo_or_ping, json_or_null, to_floats, load_bundle_bytes,
}
use confidential_ml_feature.EnclaveClient.Mock
use confidential_ml_feature.EnclaveClient.Mock.Outcomes.{
  reports, NotBlank, Agree, if-Agree, crossed, checked-Agree,
}

-- The fields that the handlers read are those of the payload.
record SamePayload (request payload : Fields) : Type 0 where
  pub echo : get_field (codes "echo") request ≡ get_field (codes "echo") payload
  pub model_name : get_field (codes "model_name") request ≡ get_field (codes "model_name") payload
  pub features : get_field (codes "features") request ≡ get_field (codes "features") payload
  pub tenant_id : get_field (codes "tenant_id") request ≡ get_field (codes "tenant_id") payload
  pub key :
      get_field (codes "encrypted_model_key") request
      ≡ get_field (codes "encrypted_model_key") payload
  pub blob :
      get_field (codes "encrypted_model_blob") request
      ≡ get_field (codes "encrypted_model_blob") payload

get_field-set_field_action :
    (action : Text) (payload : Fields)
    → SamePayload (set_field (codes "action") (str action) payload) payload
unfolding ◌=ₜ◌
get_field-set_field_action action payload =
    let keeps = λ (name : Text) (h : (codes "action" =ₜ name) ≡ false).
      get_field-set_field_other (codes "action") name (str action) payload h in
    record {
      echo = keeps (codes "echo") refl;
      model_name = keeps (codes "model_name") refl;
      features = keeps (codes "features") refl;
      tenant_id = keeps (codes "tenant_id") refl;
      key = keeps (codes "encrypted_model_key") refl;
      blob = keeps (codes "encrypted_model_blob") refl;
    }

module _ {Keys Model : Type 0} (p : Platform Keys Model) where
  handle_predict-Agree :
      (payload : Fields) (latency : ℕ) (engine : Engine Keys Model)
      → NotBlank (as_str (get_field (codes "model_name") payload))
      → is_blank (as_str (get_field (codes "tenant_id") payload))
        ≡ is_missing (as_str (get_field (codes "tenant_id") payload))
      → Agree p
          (Mock.checked p
            (as_str (get_field (codes "model_name") payload))
            (as_list (get_field (codes "features") payload))
            payload
            latency
            engine)
          (Server.handle_predict p payload latency engine)
  unfolding Server.handle_predict
  handle_predict-Agree payload latency engine n t =
      checked-Agree p (as_str (get_field (codes "model_name") payload))
        (as_str (get_field (codes "tenant_id") payload))
        (as_list (get_field (codes "features") payload)) payload latency engine refl n t

  handle_predict-SamePayload :
      (request payload : Fields) (latency : ℕ) (engine : Engine Keys Model)
      → SamePayload request payload
      → Server.handle_predict p request latency engine
        ≡ Server.handle_predict p payload latency engine
  unfolding Server.handle_predict
  handle_predict-SamePayload request payload latency engine s =
      elim (Option-cases (as_list (get_field (codes "features") payload))) [
        | inr (features, e) ↦
            rw (s.model_name, s.tenant_id, s.features)
              (rw e (rw (s.model_name, s.tenant_id, s.key, s.blob) refl))
        | inl e ↦ rw (s.model_name, s.tenant_id, s.features) (rw e refl)
      ]

  -- For a model name that is not blank where it is a text, and a tenant that is not made of blanks
  -- only: the mock and the enclave, for the request that the client sends for the same call, return
  -- the same outcome and leave the same engine; but where the enclave answers INFERENCE_FAILED or
  -- INTERNAL_ERROR, the mock has INVALID_REQUEST.
  pub send_request-dispatch_request :
      (action : Text) (payload : Fields) (latency : ℕ) (engine : Engine Keys Model)
      → NotBlank (as_str (get_field (codes "model_name") payload))
      → is_blank (as_str (get_field (codes "tenant_id") payload))
        ≡ is_missing (as_str (get_field (codes "tenant_id") payload))
      → Agree p (Mock.send_request p action payload latency engine) (
          Server.dispatch_request p
            (set_field (codes "action") (str action) payload)
            latency
            engine)
  unfolding Mock.send_request Server.dispatch_request
  send_request-dispatch_request action payload latency engine n t =
      let request = set_field (codes "action") (str action) payload in
      let keeps = get_field-set_field_action action payload in
      rw (get_field-set_field_same (codes "action") (str action) payload) (
        if-Agree p (action =ₜ codes "health") _ _ _ _
          (ap (λ e. reports (echo_or_ping e) (length engine.models)) (sym keeps.echo), refl)
          (if-Agree p (action =ₜ codes "list_models") _ _ _ _ (refl, refl)
            (crossed p (action =ₜ codes "predict") _ _ _ _ (refl, refl)
              (subst
                (Agree p (
                  Mock.checked p (as_str (get_field (codes "model_name") payload))
                    (as_list (get_field (codes "features") payload)) payload latency engine))
                (sym (handle_predict-SamePayload request payload latency engine keeps))
                (handle_predict-Agree payload latency engine n t)))))
