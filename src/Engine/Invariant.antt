-- ===== src/Engine/Invariant.antt =====
-- enclave/inference_engine.py: the invariant of `InferenceEngine`.
use confidential_ml_feature.Prelude.{
  ℕ, positive, ◌≤◌, ◌≡◌, refl, true, false, Option, none, some, List, Text, Bytes, length, All,
  arith, Result, ok, err, Ensures, Ensures-bind, Ensures-ok, if-elim, Option-cases, inl, inr,
}
use confidential_ml_feature.Python.Codes.{codes}
use confidential_ml_feature.Python.Json.{Json, Fields, bool, int, get_field}
use confidential_ml_feature.Python.Strip.{strip, is_empty}
use confidential_ml_feature.OrderedDict
use confidential_ml_feature.OrderedDict.Laws.{Distinct, length-evict-le}
use confidential_ml_feature.OrderedDict.Recency.{
  Distinct-move_to_end, length-move_to_end-le, move_to_end-insert, Distinct-remove, Distinct-snoc,
  Distinct-evict, get-remove_self, length-remove-le,
}
use confidential_ml_feature.OrderedDict.Entries.{All-remove, All-insert, All-move_to_end, All-evict}
use confidential_ml_feature.Engine.{
  Exception, LoadedModel, Platform, Engine, Prediction, unload_model, predict, model_load,
  value_error, data_key_not_decrypted,
}
use confidential_ml_feature.Engine.Loading.{
  Bundle, or_raise, payload_dimension, parse_model_payload, build_aad, extract_feature_dimension,
  open_model, store_model, finish_load, decrypt_and_store, load_bundle, load_model,
}

-- A model stands under its own name, and expects at least one feature.
pub record IsSound {Model : Type 0} (e : Text × LoadedModel Model) : Type 0 where
  pub named : e.1.model_name ≡ e.0
  pub dimension : positive e.1.feature_dimension ≡ true

payload_dimension-positive :
    (o : Option Json) → Ensures (λ n. positive n ≡ true) (payload_dimension o)
payload_dimension-positive none = tt
payload_dimension-positive (some (int n)) =
    if-elim (Ensures (λ n. positive n ≡ true)) (positive n) _ _ (λ h. h) (λ _. tt)
payload_dimension-positive (some (bool true)) = refl
payload_dimension-positive (some (bool false)) = tt
payload_dimension-positive (some _) = tt

module _ {Keys Model : Type 0} where
  pub record IsValid (engine : Engine Keys Model) : Type 0 where
    pub distinct : Distinct engine.models
    pub bounded : length engine.models ≤ engine.max_models
    pub sound : All IsSound engine.models

  -- The engine keeps its invariant and its limit.
  pub record Keeps (before after : Engine Keys Model) : Type 0 where
    pub valid : IsValid after
    pub limit : after.max_models ≡ before.max_models

  pub touched-IsValid :
      (name : Text) (engine : Engine Keys Model)
      → IsValid engine
      → Keeps engine (record engine { models = OrderedDict.move_to_end name engine.models })
  touched-IsValid name engine v = record {
    valid = record {
      distinct = Distinct-move_to_end name engine.models v.distinct;
      bounded = omega (arith, length-move_to_end-le name engine.models);
      sound = All-move_to_end IsSound name engine.models v.sound;
    };
    limit = refl;
  }

  pub unload_model-Keeps :
      (name : Text) (engine : Engine Keys Model)
      → IsValid engine
      → Keeps engine (unload_model name engine)
  unfolding unload_model
  unload_model-Keeps name engine v = record {
    valid = record {
      distinct = Distinct-remove (strip name) engine.models v.distinct;
      bounded = omega (arith, length-remove-le (strip name) engine.models);
      sound = All-remove IsSound (strip name) engine.models v.sound;
    };
    limit = refl;
  }

  module _ (p : Platform Keys Model) where
    pub store_model-Keeps :
        (name : Text) (loaded : LoadedModel Model) (engine : Engine Keys Model)
        → IsSound (name, loaded)
        → IsValid engine
        → Keeps engine (store_model p name loaded engine)
    unfolding store_model
    store_model-Keeps name loaded engine new v = record {
      valid = record {
        distinct = Distinct-evict engine.max_models _ (
            rw move_to_end-insert (
              Distinct-snoc name loaded _ (Distinct-remove name engine.models v.distinct)
                (get-remove_self name engine.models)));
        bounded = length-evict-le engine.max_models _;
        sound = All-evict IsSound engine.max_models _ (
            All-move_to_end IsSound name _
              (All-insert IsSound name loaded engine.models new v.sound));
      };
      limit = refl;
    }

    extract_feature_dimension-positive :
        (model : Model) (payload : Fields)
        → Ensures (λ n. positive n ≡ true) (extract_feature_dimension p model payload)
    unfolding extract_feature_dimension
    extract_feature_dimension-positive model payload = elim (Option-cases (p.n_features_in model)) [
      | inl e ↦
          rw (e, extract_feature_dimension)
            (payload_dimension-positive (get_field (codes "feature_dimension") payload))
      | inr (n, e) ↦
          rw (e, extract_feature_dimension)
            (if-elim (Ensures (λ n. positive n ≡ true)) (positive n) _ _ (λ h. h) (λ _. tt))
    ]

    -- Only `open_model` makes models, and it names each as it was asked to.
    pub open_model-IsSound :
        (name tenant_id : Text) (data_key blob : Bytes)
        → Ensures (λ loaded. IsSound (name, loaded)) (open_model p name tenant_id data_key blob)
    unfolding open_model
    open_model-IsSound name tenant_id data_key blob =
        Ensures-bind _ (parse_model_payload p blob) _ λ payload _.
          Ensures-bind _ (or_raise (p.b64decode payload.1) value_error) _ λ nonce _.
            Ensures-bind _ (or_raise (p.b64decode payload.2) value_error) _ λ ciphertext _.
              Ensures-bind _ (build_aad p tenant_id name _) _ λ aad _.
                Ensures-bind _ (or_raise (p.aes_gcm_decrypt data_key nonce ciphertext aad) _) _
                  λ plain _. Ensures-bind _ (or_raise (p.joblib_load plain) _) _ λ model _.
                    Ensures-bind _ (extract_feature_dimension p model payload.0) _ λ n e. record {
                      named = refl;
                      dimension =
                          Ensures-ok _ _ n (extract_feature_dimension-positive model payload.0) e;
                    }

    finish_load-Keeps :
        (name : Text) (r : Result Exception (LoadedModel Model)) (engine : Engine Keys Model)
        → Ensures (λ loaded. IsSound (name, loaded)) r
        → IsValid engine
        → Keeps engine (finish_load p name r engine).1
    unfolding finish_load
    finish_load-Keeps name (ok loaded) engine h v = store_model-Keeps name loaded engine h v
    finish_load-Keeps name (err e) engine h v = record { valid = v; limit = refl }

    decrypt_and_store-Keeps :
        (name : Text) (bundle : Bundle) (key blob : Bytes) (engine : Engine Keys Model)
        → IsValid engine
        → Keeps engine (decrypt_and_store p name bundle key blob engine).1
    unfolding decrypt_and_store
    decrypt_and_store-Keeps name bundle key blob engine v =
        go (p.decrypt_data_key key bundle.tenant_id engine.keys)
      where
        go :
            (r : Option Bytes × Keys)
            → Keeps engine
                (elim r.0 as (λ _. Result Exception (Unit {0}) × Engine Keys Model) [
                  | none ↦ (err (model_load data_key_not_decrypted), record engine { keys = r.1 })
                  | some k ↦
                      finish_load p name
                        (open_model p name bundle.tenant_id k blob)
                        (record engine { keys = r.1 })
                ]).1
        go (none, keys) = record {
          valid = record { distinct = v.distinct; bounded = v.bounded; sound = v.sound };
          limit = refl;
        }
        go (some k, keys) =
            let after =
              finish_load-Keeps name (open_model p name bundle.tenant_id k blob)
                (record engine { keys = keys }) (open_model-IsSound name bundle.tenant_id k blob)
                (record { distinct = v.distinct; bounded = v.bounded; sound = v.sound }) in
            record { valid = after.valid; limit = after.limit }

    load_bundle-Keeps :
        (name : Text) (r : Result Exception (Bundle × Bytes × Bytes)) (engine : Engine Keys Model)
        → IsValid engine
        → Keeps engine (load_bundle p name r engine).1
    unfolding load_bundle
    load_bundle-Keeps name (ok (bundle, key, blob)) engine v =
        decrypt_and_store-Keeps name bundle key blob engine v
    load_bundle-Keeps name (err e) engine v = record { valid = v; limit = refl }

    abbrev Loads : Engine Keys Model → Result Exception (Unit {0}) × Engine Keys Model → Type 0
    Loads engine r = Keeps engine r.1

    -- Loading a bundle, whether it succeeds or raises, keeps the engine's invariant and its limit.
    pub load_model-Keeps :
        (name : Text) (weights : Bytes) (engine : Engine Keys Model)
        → IsValid engine
        → Keeps engine (load_model p name weights engine).1
    unfolding load_model
    load_model-Keeps name weights engine v =
        if-elim (Loads engine) (is_empty (strip name)) _ _ (λ _. same)
          (λ _.
            if-elim (Loads engine) (is_empty weights) _ _ (λ _. same)
              (λ _. elim (Option-cases (OrderedDict.get (strip name) engine.models)) [
                | inl e ↦ rw e (load_bundle-Keeps (strip name) _ engine v)
                | inr (m, e) ↦ rw e (touched-IsValid (strip name) engine v)
              ]))
      where
        same : Keeps engine engine
        same = record { valid = v; limit = refl }

    abbrev Predicts : Engine Keys Model → Result Exception Prediction × Engine Keys Model → Type 0
    Predicts engine r = Keeps engine r.1

    -- Predicting, whether it succeeds or raises, keeps the engine's invariant and its limit.
    pub predict-Keeps :
        (name : Text) (features : List ℕ) (latency : ℕ) (engine : Engine Keys Model)
        → IsValid engine
        → Keeps engine (predict p name features latency engine).1
    unfolding predict
    predict-Keeps name features latency engine v =
        if-elim (Predicts engine) (is_empty (strip name)) _ _
          (λ _. record { valid = v; limit = refl })
          (λ _. elim (Option-cases (OrderedDict.get (strip name) engine.models)) [
            | inl e ↦ rw e (record { valid = v; limit = refl })
            | inr (m, e) ↦ rw e (touched-IsValid (strip name) engine v)
          ])
