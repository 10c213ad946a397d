-- ===== src/Engine/Threads.antt =====
-- enclave/inference_engine.py: `InferenceEngine` under several threads. A request takes the engine's
-- lock at most twice, and between its sections other threads run theirs.
pub mod Invariant
pub mod Alone
use confidential_ml_feature.Prelude.{
  ℕ, suc, Bool, Option, none, some, List, Text, Bytes, Result, ok, err, if◌then◌else◌,
}
use confidential_ml_feature.Python.Strip.{strip, is_empty}
use confidential_ml_feature.OrderedDict
use confidential_ml_feature.Engine.{
  Exception, LoadedModel, Platform, Engine, Prediction, is_model_loaded, list_loaded_models,
  unload_model, run_model, model_load, empty_name, empty_weights, model_not_loaded,
  data_key_not_decrypted,
}
use confidential_ml_feature.Engine.Loading.{Bundle, open_bundle, open_model, store_model}

pub data Request : Type 0 where
  load : Text → Bytes → Request
  infer : Text → List ℕ → ℕ → Request
  unload : Text → Request
  ask_loaded : Text → Request
  ask_names : Request

pub data Answer : Type 0 where
  loaded : Result Exception (Unit {0}) → Answer
  predicted : Result Exception Prediction → Answer
  unloaded : Answer
  is_loaded : Bool → Answer
  names : List Text → Answer

-- Where a thread stands: before its first section, between the sections of `load_model`, after the
-- section of `predict`, or done.
pub data Work (Model : Type 0) : Type 0 where
  idle : Work Model
  asked : Request → Work Model
  opening : Text → Bytes → Work Model
  storing : Text → LoadedModel Model → Work Model
  running : Text → LoadedModel Model → List ℕ → ℕ → Work Model
  answered : Answer → Work Model

-- A thread, with the request that it was given last.
abbrev pub Task : Type 0 → Type 0
Task Model = Option Request × Work Model

module _ {Keys Model : Type 0} (p : Platform Keys Model) where
  -- `load_model` up to the end of its first section.
  unfoldable pub begin_load : Text → Bytes → Engine Keys Model → Work Model × Engine Keys Model
  begin_load model_name encrypted_weights engine =
      let name = strip model_name in
      if is_empty name
      then (answered (loaded (err (model_load empty_name))), engine)
      else if is_empty encrypted_weights
      then (answered (loaded (err (model_load empty_weights))), engine)
      else elim (OrderedDict.get name engine.models) [
        | some cached ↦ (
          answered (loaded (ok tt)),
          record engine { models = OrderedDict.move_to_end name engine.models },
        )
        | none ↦ (opening name encrypted_weights, engine)
      ]

  unfoldable pub keep_open : Text → Result Exception (LoadedModel Model) → Work Model
  keep_open name (ok m) = storing name m
  keep_open name (err e) = answered (loaded (err e))

  unfoldable pub decrypt_bundle :
      Text
      → Result Exception (Bundle × Bytes × Bytes)
      → Engine Keys Model
      → Work Model × Engine Keys Model
  unfolding keep_open
  decrypt_bundle name (err e) engine = (answered (loaded (err e)), engine)
  decrypt_bundle name (ok (bundle, key, blob)) engine =
      let (data_key, keys') = p.decrypt_data_key key bundle.tenant_id engine.keys in
      let engine' = record engine { keys = keys' } in
      elim data_key [
        | none ↦ (answered (loaded (err (model_load data_key_not_decrypted))), engine')
        | some k ↦ (keep_open name (open_model p name bundle.tenant_id k blob), engine')
      ]

  -- `predict` up to the end of its section.
  unfoldable pub begin_predict :
      Text → List ℕ → ℕ → Engine Keys Model → Work Model × Engine Keys Model
  begin_predict model_name features latency engine =
      let name = strip model_name in
      if is_empty name
      then (answered (predicted (err (model_not_loaded name))), engine)
      else elim (OrderedDict.get name engine.models) [
        | none ↦ (answered (predicted (err (model_not_loaded name))), engine)
        | some m ↦ (
          running name m features latency,
          record engine { models = OrderedDict.move_to_end name engine.models },
        )
      ]

  unfoldable pub begin : Request → Engine Keys Model → Work Model × Engine Keys Model
  unfolding begin_load begin_predict
  begin (load name weights) engine = begin_load name weights engine
  begin (infer name features latency) engine = begin_predict name features latency engine
  begin (unload name) engine = (answered unloaded, unload_model name engine)
  begin (ask_loaded name) engine = (answered (is_loaded (is_model_loaded name engine)), engine)
  begin ask_names engine = (answered (names (list_loaded_models engine)), engine)

  -- What a thread does next: one section, or the code between two.
  unfoldable pub advance : Work Model → Engine Keys Model → Work Model × Engine Keys Model
  unfolding begin decrypt_bundle
  advance idle engine = (idle, engine)
  advance (asked request) engine = begin request engine
  advance (opening name weights) engine = decrypt_bundle name (open_bundle p name weights) engine
  advance (storing name m) engine = (answered (loaded (ok tt)), store_model p name m engine)
  advance (running name m features latency) engine =
      (answered (predicted (run_model p m features latency)), engine)
  advance (answered answer) engine = (answered answer, engine)

  -- A thread that is free takes a request, or a thread goes on. What it does is kept beside the
  -- request.
  pub data Move : Task Model → Engine Keys Model → Task Model → Engine Keys Model → Type 0 where
    receive :
        (request : Request) {last : Option Request} {engine : Engine Keys Model}
        → Move (last, idle) engine (some request, asked request) engine
    reply :
        (answer : Answer) {last : Option Request} {engine : Engine Keys Model}
        → Move (last, answered answer) engine (last, idle) engine
    go_on :
        (w : Work Model) {last : Option Request} {engine : Engine Keys Model}
        → Move (last, w) engine (last, (advance w engine).0) (advance w engine).1
