-- ===== src/Engine/Threads/Alone.antt =====
-- enclave/inference_engine.py: a request whose sections follow each other undisturbed is the method as
-- it is written.
use confidential_ml_feature.Prelude.{
  ℕ, zero, suc, ◌≡◌, refl, List, Text, Bytes, Result, ok, err, Option-cases, Bool-cases, inl, inr,
}
use confidential_ml_feature.Python.Strip.{strip, is_empty}
use confidential_ml_feature.OrderedDict
use confidential_ml_feature.Engine.{
  Exception, LoadedModel, Platform, Engine, Prediction, predict, is_model_loaded,
  list_loaded_models, unload_model,
}
use confidential_ml_feature.Engine.Loading.{
  Bundle, open_bundle, open_model, finish_load, decrypt_and_store, load_bundle, load_model,
}
use confidential_ml_feature.Engine.Threads.{
  Request, Answer, Work, asked, answered, loaded, predicted, unloaded, is_loaded, names, load,
  infer, unload, ask_loaded, ask_names, begin_load, keep_open, decrypt_bundle, begin_predict, begin,
  advance,
}

module _ {Keys Model : Type 0} (p : Platform Keys Model) where
  -- The methods, as what they answer and the engine that they leave.
  abbrev pub serve_request : Request → Engine Keys Model → Answer × Engine Keys Model
  serve_request (load name weights) engine =
      let (r, e) = load_model p name weights engine in (loaded r, e)
  serve_request (infer name features latency) engine =
      let (r, e) = predict p name features latency engine in (predicted r, e)
  serve_request (unload name) engine = (unloaded, unload_model name engine)
  serve_request (ask_loaded name) engine = (is_loaded (is_model_loaded name engine), engine)
  serve_request ask_names engine = (names (list_loaded_models engine), engine)

  abbrev pub advances : ℕ → Work Model × Engine Keys Model → Work Model × Engine Keys Model
  advances zero r = r
  advances (suc n) r = advances n (advance p r.0 r.1)

  abbrev pub done : Answer × Engine Keys Model → Work Model × Engine Keys Model
  done (a, e) = (answered a, e)

  abbrev loading : Result Exception (Unit {0}) × Engine Keys Model → Work Model × Engine Keys Model
  loading (r, e) = (answered (loaded r), e)

  abbrev predicting :
      Result Exception Prediction × Engine Keys Model → Work Model × Engine Keys Model
  predicting (r, e) = (answered (predicted r), e)

  kept_open :
      (name : Text) (r : Result Exception (LoadedModel Model)) (engine : Engine Keys Model)
      → advance p (keep_open p name r) engine ≡ loading (finish_load p name r engine)
  unfolding keep_open advance finish_load
  kept_open name (ok m) engine = refl
  kept_open name (err e) engine = refl

  decrypted :
      (name : Text) (r : Result Exception (Bundle × Bytes × Bytes)) (engine : Engine Keys Model)
      → advances 1 (decrypt_bundle p name r engine) ≡ loading (load_bundle p name r engine)
  unfolding decrypt_bundle load_bundle decrypt_and_store advance
  decrypted name (err e) engine = refl
  decrypted name (ok (bundle, key, blob)) engine =
      elim (Option-cases (p.decrypt_data_key key bundle.tenant_id engine.keys).0) [
        | inl e ↦ rw (e, decrypt_bundle) (rw (e, decrypt_and_store) refl)
        | inr (k, e) ↦
            rw (e, decrypt_bundle)
              (rw (e, decrypt_and_store)
                (kept_open name (open_model p name bundle.tenant_id k blob) _))
      ]

  load_alone :
      (name : Text) (weights : Bytes) (engine : Engine Keys Model)
      → advances 2 (begin_load p name weights engine) ≡ loading (load_model p name weights engine)
  unfolding begin_load load_model advance
  load_alone name weights engine = elim (Bool-cases (is_empty (strip name))) [
    | inl h ↦ rw (h, begin_load) refl
    | inr h ↦ elim (Bool-cases (is_empty weights)) [
      | inl k ↦ rw (h, begin_load) (rw k refl)
      | inr k ↦ elim (Option-cases (OrderedDict.get (strip name) engine.models)) [
        | inl e ↦
            rw (h, begin_load)
              (rw k (rw e (decrypted (strip name) (open_bundle p (strip name) weights) engine)))
        | inr (m, e) ↦ rw (h, begin_load) (rw k (rw e refl))
      ]
    ]
  ]

  infer_alone :
      (name : Text) (features : List ℕ) (latency : ℕ) (engine : Engine Keys Model)
      → advances 2 (begin_predict p name features latency engine)
        ≡ predicting (predict p name features latency engine)
  unfolding begin_predict predict advance
  infer_alone name features latency engine = elim (Bool-cases (is_empty (strip name))) [
    | inl h ↦ rw (h, begin_predict) refl
    | inr h ↦ elim (Option-cases (OrderedDict.get (strip name) engine.models)) [
      | inl e ↦ rw (h, begin_predict) (rw e refl)
      | inr (m, e) ↦ rw (h, begin_predict) (rw e refl)
    ]
  ]

  -- Three moves in a row answer any request as the method does, and leave the engine that it leaves.
  pub advances-serve_request :
      (request : Request) (engine : Engine Keys Model)
      → advances 3 (asked request, engine) ≡ done (serve_request request engine)
  unfolding advance begin
  advances-serve_request (load name weights) engine = load_alone name weights engine
  advances-serve_request (infer name features latency) engine =
      infer_alone name features latency engine
  advances-serve_request (unload name) engine = refl
  advances-serve_request (ask_loaded name) engine = refl
  advances-serve_request ask_names engine = refl
