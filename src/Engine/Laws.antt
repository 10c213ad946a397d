-- ===== src/Engine/Laws.antt =====
-- What the engine's operations do to the models that are loaded.
use confidential_ml_feature.Engine.Invariant.{IsSound, open_model-IsSound}
use confidential_ml_feature.Prelude.{
  Ensures-ok, drop, length, ◌⊎◌, ℕ, ◌<◌, ◌≡◌, ◌-◌, refl, ap, ◌∙◌, false, none, some, List, [], ◌∷◌,
  ◌++◌, Text, Bytes, Result, ok, err, if-elim, Option-cases, inl, inr,
}
use confidential_ml_feature.Python.Strip.{strip, is_empty}
use confidential_ml_feature.OrderedDict
use confidential_ml_feature.OrderedDict.Laws.{evict-eq-drop, get-move_to_end}
use confidential_ml_feature.OrderedDict.Recency.{
  remove_of_none, move_to_end_of_some, move_to_end-insert, evict-snoc,
}
use confidential_ml_feature.Engine.{Exception, LoadedModel, Platform, Engine, Prediction, predict}
use confidential_ml_feature.Engine.Loading.{
  Bundle, open_bundle, open_model, store_model, finish_load, decrypt_and_store, load_bundle,
  load_model,
}

module _ {Keys Model : Type 0} (p : Platform Keys Model) where
  -- A prediction, whether it succeeds or raises, changes the lookup of no name.
  pub get-predict :
      (name j : Text) (features : List ℕ) (latency : ℕ) (engine : Engine Keys Model)
      → OrderedDict.get j (predict p name features latency engine).1.models
        ≡ OrderedDict.get j engine.models
  unfolding predict
  get-predict name j features latency engine =
      if-elim
        (λ (r : Result Exception Prediction × Engine Keys Model).
          OrderedDict.get j r.1.models ≡ OrderedDict.get j engine.models)
        (is_empty (strip name)) _ _ (λ _. refl)
        (λ _. elim (Option-cases (OrderedDict.get (strip name) engine.models)) [
          | inl e ↦ rw e refl
          | inr (m, e) ↦ rw e (get-move_to_end (strip name) j engine.models)
        ])

  -- The load found a model under the name: it becomes the one used last, and nothing else changes.
  pub record WasLoaded (name : Text) (before after : Engine Keys Model) : Type 0 where
    pub model : LoadedModel Model
    pub found : OrderedDict.get name before.models ≡ some model
    pub touched :
        after
        ≡ record before { models = OrderedDict.remove name before.models ++ (name, model) ∷ [] }

  -- The load opened the bundle: the model that the decrypted artifact holds, under the name, comes
  -- after the models from before, of which the oldest give way to the limit.
  pub record WasOpened (name : Text) (weights : Bytes) (before after : Engine Keys Model)
      : Type 0 where
    pub model : LoadedModel Model
    pub bundle : Bundle
    pub key : Bytes
    pub blob : Bytes
    pub data_key : Bytes
    pub unloaded : OrderedDict.get name before.models ≡ none
    pub opened : open_bundle p name weights ≡ ok (bundle, key, blob)
    pub decrypted : (p.decrypt_data_key key bundle.tenant_id before.keys).0 ≡ some data_key
    pub read : open_model p name bundle.tenant_id data_key blob ≡ ok model
    pub sound : IsSound (name, model)
    pub stored :
        after.models
        ≡ drop (length before.models - (before.max_models - 1)) before.models ++ (name, model) ∷ []

  -- What a load leaves, on success and on failure.
  abbrev pub LoadOutcome :
      Text → Bytes → Engine Keys Model → Result Exception (Unit {0}) × Engine Keys Model → Type 0
  LoadOutcome name weights before (ok u, after) =
      WasLoaded name before after ⊎ WasOpened name weights before after
  LoadOutcome name weights before (err e, after) = after.models ≡ before.models

  store_model-models :
      (name : Text) (loaded : LoadedModel Model) (engine : Engine Keys Model)
      → 0 < engine.max_models
      → OrderedDict.get name engine.models ≡ none
      → (store_model p name loaded engine).models
        ≡ drop (length engine.models - (engine.max_models - 1)) engine.models ++ (name, loaded) ∷ []
  unfolding store_model
  store_model-models name loaded engine room e =
      ap (OrderedDict.evict engine.max_models) (move_to_end-insert name loaded engine.models)
      ∙ evict-snoc engine.max_models (OrderedDict.remove name engine.models) (name, loaded) room
      ∙ ap (λ d. OrderedDict.evict (engine.max_models - 1) d ++ (name, loaded) ∷ [])
          (remove_of_none name engine.models e)
      ∙ ap (λ d. d ++ (name, loaded) ∷ []) (evict-eq-drop (engine.max_models - 1) engine.models)

  finish_load-LoadOutcome :
      (name : Text) (weights : Bytes) (bundle : Bundle) (key blob data_key : Bytes) (keys : Keys)
      (before : Engine Keys Model) (r : Result Exception (LoadedModel Model))
      → 0 < before.max_models
      → OrderedDict.get name before.models ≡ none
      → open_bundle p name weights ≡ ok (bundle, key, blob)
      → (p.decrypt_data_key key bundle.tenant_id before.keys).0 ≡ some data_key
      → open_model p name bundle.tenant_id data_key blob ≡ r
      → LoadOutcome name weights before (finish_load p name r (record before { keys = keys }))
  unfolding finish_load
  finish_load-LoadOutcome name weights bundle key blob data_key keys before (ok loaded) room e o d
        r =
      inr (record {
        model = loaded;
        bundle = bundle;
        key = key;
        blob = blob;
        data_key = data_key;
        unloaded = e;
        opened = o;
        decrypted = d;
        read = r;
        sound =
            Ensures-ok (λ m. IsSound (name, m)) (open_model p name bundle.tenant_id data_key blob)
              loaded (open_model-IsSound p name bundle.tenant_id data_key blob) r;
        stored = store_model-models name loaded (record before { keys = keys }) room e;
      })
  finish_load-LoadOutcome name weights bundle key blob data_key keys before (err x) room e o d r =
      refl

  load_bundle-LoadOutcome :
      (name : Text) (weights : Bytes) (r : Result Exception (Bundle × Bytes × Bytes))
      (before : Engine Keys Model)
      → 0 < before.max_models
      → OrderedDict.get name before.models ≡ none
      → open_bundle p name weights ≡ r
      → LoadOutcome name weights before (load_bundle p name r before)
  unfolding load_bundle decrypt_and_store
  load_bundle-LoadOutcome name weights (err e) before room free o = refl
  load_bundle-LoadOutcome name weights (ok (bundle, key, blob)) before room free o =
      elim (Option-cases (p.decrypt_data_key key bundle.tenant_id before.keys).0) [
        | inl e ↦ rw (e, decrypt_and_store) refl
        | inr (data_key, e) ↦
            rw (e, decrypt_and_store)
              (finish_load-LoadOutcome name weights bundle key blob data_key
                (p.decrypt_data_key key bundle.tenant_id before.keys).1 before
                (open_model p name bundle.tenant_id data_key blob) room free o e refl)
      ]

  -- In an engine with room for a model, a load does one of three things. It raises, and the loaded
  -- models are unchanged. Or a model is loaded under the stripped name: it becomes the one used last,
  -- and the engine is the same but for that. Or no model is, the bundle opens, its key is decrypted
  -- for its tenant, and the artifact opens: the model that it holds, with that name and a positive
  -- dimension, comes last, after the newest of the models from before, as many as fit, in their order.
  pub load_model-LoadOutcome :
      (name : Text) (weights : Bytes) (engine : Engine Keys Model)
      → 0 < engine.max_models
      → LoadOutcome (strip name) weights engine (load_model p name weights engine)
  unfolding load_model
  load_model-LoadOutcome name weights engine room =
      if-elim (LoadOutcome (strip name) weights engine) (is_empty (strip name)) _ _ (λ _. refl)
        (λ _.
          if-elim (LoadOutcome (strip name) weights engine) (is_empty weights) _ _ (λ _. refl)
            (λ _. elim (Option-cases (OrderedDict.get (strip name) engine.models)) [
              | inl e ↦ rw e (load_bundle-LoadOutcome (strip name) weights _ engine room e refl)
              | inr (m, e) ↦ rw e (
                  inl (record {
                    model = m;
                    found = e;
                    touched =
                        ap (λ models. record engine { models = models })
                          (move_to_end_of_some (strip name) engine.models m e);
                  }))
            ]))

  -- A load under a name that is loaded returns at once: no key is decrypted, and the bundle, which
  -- may be of another tenant, is not read.
  pub load_model_of_loaded :
      (name : Text) (weights : Bytes) (engine : Engine Keys Model) (m : LoadedModel Model)
      → is_empty (strip name) ≡ false
      → is_empty weights ≡ false
      → OrderedDict.get (strip name) engine.models ≡ some m
      → load_model p name weights engine
        ≡ (ok tt, record engine { models = OrderedDict.move_to_end (strip name) engine.models })
  unfolding load_model
  load_model_of_loaded name weights engine m named given loaded = rw (named, given, loaded) refl
