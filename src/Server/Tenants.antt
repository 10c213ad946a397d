-- ===== src/Server/Tenants.antt =====
-- What a predict request's tenant has to do with the answer: the cache of loaded models is keyed by
-- the model's name alone.
use confidential_ml_feature.Prelude.{
  pos, none, ok, List, [], ◌∷◌, ◌++◌, length, arith, ap, ◌=ₜ◌, ℕ, ◌≡◌, ◌∙◌, sym, refl, false, some,
  Text, if_false,
}
use confidential_ml_feature.Python.Codes.{codes}
use confidential_ml_feature.Python.Json.{
  Json, Items, Fields, str, arr, field, end, get_field, to_list,
}
use confidential_ml_feature.Python.Strip.{strip, is_empty}
use confidential_ml_feature.OrderedDict
use confidential_ml_feature.OrderedDict.Recency.{
  move_to_end_of_some, get-remove-snoc, move_to_end-remove-snoc,
}
use confidential_ml_feature.Engine.{
  LoadedModel, Platform, Engine, Prediction, predict, run_model, validate_features,
  compute_confidence,
}
use confidential_ml_feature.Engine.Laws.{load_model_of_loaded}
use confidential_ml_feature.Server.{
  predicted, respond, to_floats, run_prediction, after_load, load_and_predict, load_bundle_bytes,
  handle_predict,
}

-- A predict request with all fields.
abbrev pub predict_request : Text → Text → Items → Text → Text → Fields
predict_request tenant_id model_name features key blob =
    field (codes "action") (str (codes "predict")) (
      field (codes "tenant_id") (str tenant_id) (
        field (codes "model_name") (str model_name) (
          field (codes "features") (arr features) (
            field (codes "encrypted_model_key") (str key)
              (field (codes "encrypted_model_blob") (str blob) end)))))

module _ {Keys Model : Type 0} (p : Platform Keys Model) where
  -- A request that has all fields, for a name under which a model is loaded, comes to `predict`.
  handle_predict_of_loaded_runs :
      (tenant_id name : Text) (features : Items) (key blob : Text) (latency : ℕ)
      (engine : Engine Keys Model) (m : LoadedModel Model)
      → ((v : Json) → is_empty (p.dumps v) ≡ false)
      → is_empty (strip tenant_id) ≡ false
      → is_empty (strip name) ≡ false
      → is_empty key ≡ false
      → OrderedDict.get (strip name) engine.models ≡ some m
      → handle_predict p (predict_request tenant_id name features key blob) latency engine
        ≡ run_prediction p name features false latency
            (record engine { models = OrderedDict.move_to_end (strip name) engine.models })
  unfolding handle_predict get_field load_and_predict load_bundle_bytes ◌=ₜ◌
  handle_predict_of_loaded_runs tenant_id name features key blob latency engine m dumped tenant
        named keyed loaded =
      if_false (is_empty (strip name)) _ _ named
      ∙ if_false (is_empty (strip tenant_id)) _ _ tenant
      ∙ if_false (is_empty key) _ _ keyed
      ∙ ap (after_load p name features latency) (
          load_model_of_loaded p name (load_bundle_bytes p tenant_id name key (str blob)) engine m
            named (dumped _) loaded)
      ∙ unfold after_load in refl

  -- The prediction that `m` makes of these features.
  abbrev pub made : LoadedModel Model → List ℕ → ℕ → ℕ → Prediction
  made m features y latency = record {
    prediction = y;
    confidence = elim (p.max_probability m.model features) [ none ↦ p.float_one | some c ↦ c ];
    latency_ms = latency;
  }

  run_model_of_fitting :
      (m : LoadedModel Model) (x y latency : ℕ) (xs : List ℕ)
      → m.feature_dimension ≡ pos (length (x ∷ xs))
      → p.model_predict m.model (x ∷ xs) ≡ some y
      → run_model p m (x ∷ xs) latency ≡ ok (made m (x ∷ xs) y latency)
  unfolding run_model validate_features compute_confidence
  run_model_of_fitting m x y latency xs dimension result = ground (arith, dimension, result)

  predict_of_loaded :
      (name : Text) (features : List ℕ) (latency : ℕ) (engine : Engine Keys Model)
      (m : LoadedModel Model)
      → is_empty (strip name) ≡ false
      → predict p name features latency (record engine {
        models = OrderedDict.remove (strip name) engine.models ++ (strip name, m) ∷ [];
      })
        ≡ (
          run_model p m features latency,
          record engine {
            models = OrderedDict.remove (strip name) engine.models ++ (strip name, m) ∷ [];
          },
        )
  unfolding predict
  predict_of_loaded name features latency engine m named =
      rw (named, predict)
        (rw (get-remove-snoc (strip name) m engine.models)
          (rw (move_to_end-remove-snoc (strip name) m engine.models) refl))

  run_prediction_of_loaded :
      (name : Text) (features : Items) (latency : ℕ) (engine : Engine Keys Model)
      (m : LoadedModel Model) (x y : ℕ) (xs : List ℕ)
      → is_empty (strip name) ≡ false
      → to_floats p (to_list features) ≡ ok (x ∷ xs)
      → m.feature_dimension ≡ pos (length (x ∷ xs))
      → p.model_predict m.model (x ∷ xs) ≡ some y
      → run_prediction p name features false latency (record engine {
        models = OrderedDict.remove (strip name) engine.models ++ (strip name, m) ∷ [];
      })
        ≡ (
          predicted (made m (x ∷ xs) y latency) false,
          record engine {
            models = OrderedDict.remove (strip name) engine.models ++ (strip name, m) ∷ [];
          },
        )
  unfolding run_prediction respond
  run_prediction_of_loaded name features latency engine m x y xs named floats dimension result =
      rw (floats, run_prediction)
        (rw (predict_of_loaded name (x ∷ xs) latency engine m named)
          (rw (run_model_of_fitting m x y latency xs dimension result) refl))

  -- Where `json.dumps` makes no empty text: a request of any nonblank tenant, with any nonempty key and
  -- any blob, for a name under which a model is loaded, with features that convert to as many floats,
  -- at least one, as the model has dimensions, and with which the model predicts. The response has
  -- what that model returns, with its highest probability or else 1 as the confidence, and says that
  -- it was not served from the cache; the model becomes the one used last, and the engine, the state
  -- of its key decryptor included, is the same but for that.
  pub handle_predict_of_loaded :
      (tenant_id name : Text) (features : Items) (key blob : Text) (latency : ℕ)
      (engine : Engine Keys Model) (m : LoadedModel Model) (x y : ℕ) (xs : List ℕ)
      → ((v : Json) → is_empty (p.dumps v) ≡ false)
      → is_empty (strip tenant_id) ≡ false
      → is_empty (strip name) ≡ false
      → is_empty key ≡ false
      → OrderedDict.get (strip name) engine.models ≡ some m
      → to_floats p (to_list features) ≡ ok (x ∷ xs)
      → m.feature_dimension ≡ pos (length (x ∷ xs))
      → p.model_predict m.model (x ∷ xs) ≡ some y
      → handle_predict p (predict_request tenant_id name features key blob) latency engine ≡ (
        predicted (made m (x ∷ xs) y latency) false,
        record engine {
          models = OrderedDict.remove (strip name) engine.models ++ (strip name, m) ∷ [];
        },
      )
  handle_predict_of_loaded tenant_id name features key blob latency engine m x y xs dumped tenant
        named keyed loaded floats dimension result =
      handle_predict_of_loaded_runs tenant_id name features key blob latency engine m dumped tenant
        named keyed loaded
      ∙ ap
          (λ models.
            run_prediction p name features false latency (record engine { models = models }))
          (move_to_end_of_some (strip name) engine.models m loaded)
      ∙ run_prediction_of_loaded name features latency engine m x y xs named floats dimension result

  -- Where `json.dumps` makes no empty text, and with nonblank names and nonempty keys: two tenants
  -- that ask for the same model name and features, with whatever keys and blobs, get the same
  -- response from, and leave the same state of, an engine that has a model under the name.
  pub tenants_share_loaded_model :
      (tenant other name : Text) (features : Items) (key key' blob blob' : Text) (latency : ℕ)
      (engine : Engine Keys Model) (m : LoadedModel Model)
      → ((v : Json) → is_empty (p.dumps v) ≡ false)
      → is_empty (strip tenant) ≡ false
      → is_empty (strip other) ≡ false
      → is_empty (strip name) ≡ false
      → is_empty key ≡ false
      → is_empty key' ≡ false
      → OrderedDict.get (strip name) engine.models ≡ some m
      → handle_predict p (predict_request tenant name features key blob) latency engine
        ≡ handle_predict p (predict_request other name features key' blob') latency engine
  tenants_share_loaded_model tenant other name features key key' blob blob' latency engine m dumped
        ht ho hn hk hk' loaded =
      handle_predict_of_loaded_runs tenant name features key blob latency engine m dumped ht hn hk
        loaded
      ∙ sym (
          handle_predict_of_loaded_runs other name features key' blob' latency engine m dumped ho hn
            hk' loaded)
