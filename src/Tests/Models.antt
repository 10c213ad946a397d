-- ===== src/Tests/Models.antt =====
-- An engine with one model of one feature, on a platform that decodes every blob as it is.
use confidential_ml_feature.Prelude.{
  ℕ, pos, ◌≡◌, refl, [], ◌∷◌, ◌++◌, none, some, false, Text, ok, length, ◌=ₜ◌, arith,
}
use confidential_ml_feature.Python.Codes.{codes}
use confidential_ml_feature.Python.Json.{Fields, Items, int, nil, cons, str}
use confidential_ml_feature.Python.Strip.{strip, lstrip, is_empty}
use confidential_ml_feature.OrderedDict
use confidential_ml_feature.OrderedDict.Laws.{Distinct}
use confidential_ml_feature.Engine.{LoadedModel, Platform, Engine}
use confidential_ml_feature.Engine.Invariant.{IsValid}
use confidential_ml_feature.Threads.{System, Reach, start, later, pick, assign}
use confidential_ml_feature.Engine.Threads.{
  Task, Move, idle, asked, infer, unload, receive, go_on, advance,
}
use confidential_ml_feature.Engine.Threads.Invariant.{Carries, reach-IsValid}
use confidential_ml_feature.Server.{handle_predict, predicted, to_floats}
use confidential_ml_feature.Server.Tenants.{
  made, predict_request, handle_predict_of_loaded, tenants_share_loaded_model,
}

abbrev platform : Platform (Unit {0}) ℕ
platform = record {
  decrypt_data_key = λ key tenant keys. (some key, keys);
  b64decode = λ s. some s;
  loads = λ b. some (str b);
  dumps = λ v. 1 ∷ [];
  aes_gcm_decrypt = λ key nonce ciphertext aad. some ciphertext;
  joblib_load = λ b. some (length b);
  n_features_in = λ m. some (pos 1);
  model_predict = λ m xs. some m;
  max_probability = λ m xs. none;
  float_one = 1;
  to_float = λ v. ok 4;
}

abbrev name : Text
name = codes "m"

abbrev loaded : LoadedModel ℕ
loaded = record { model_name = name; model = 7; feature_dimension = pos 1 }

abbrev engine : Engine (Unit {0}) ℕ
engine = record { models = (name, loaded) ∷ []; max_models = 2; keys = tt }

engine-Distinct : Distinct engine.models
unfolding OrderedDict.get
engine-Distinct = (refl, tt)

engine-IsValid : IsValid engine
engine-IsValid = record {
  distinct = engine-Distinct;
  bounded = omega arith;
  sound = (record { named = refl; dimension = refl }, tt);
}

abbrev features : Items
features = cons (int (pos 4)) nil

found : OrderedDict.get (strip name) engine.models ≡ some loaded
unfolding OrderedDict.get strip lstrip ◌=ₜ◌
found = refl

name_given : is_empty (strip name) ≡ false
unfolding strip lstrip
name_given = refl

tenant_given : is_empty (strip (codes "a")) ≡ false
unfolding strip lstrip
tenant_given = refl

other_given : is_empty (strip (codes "b")) ≡ false
unfolding strip lstrip
other_given = refl

abbrev request_of : Text → Text → Text → Fields
request_of tenant key blob = predict_request tenant name features key blob

tenants_share_loaded_model_example :
    handle_predict platform (request_of (codes "a") (codes "k") (codes "x")) 3 engine
    ≡ handle_predict platform (request_of (codes "b") (codes "l") (codes "y")) 3 engine
tenants_share_loaded_model_example =
    tenants_share_loaded_model platform (codes "a") (codes "b") name features (codes "k")
      (codes "l") (codes "x") (codes "y") 3 engine loaded (λ v. refl) tenant_given other_given
      name_given refl refl found

handle_predict_of_loaded_example :
    handle_predict platform (request_of (codes "a") (codes "k") (codes "x")) 3 engine ≡ (
      predicted (made platform loaded (4 ∷ []) 7 3) false,
      record engine {
        models = OrderedDict.remove (strip name) engine.models ++ (strip name, loaded) ∷ [];
      },
    )
handle_predict_of_loaded_example =
    handle_predict_of_loaded platform (codes "a") name features (codes "k") (codes "x") 3 engine
      loaded 4 7 [] (λ v. refl) tenant_given name_given refl found (unfold to_floats in refl) refl
      refl

-- One thread predicts with the model and another unloads it in between.
abbrev Threads : Type 0
Threads = System (Engine (Unit {0}) ℕ) (Task ℕ)

abbrev moved : ℕ → Threads → Threads
moved i s = record {
  shared = (advance platform (s.work i).1 s.shared).1;
  work = assign i ((s.work i).0, (advance platform (s.work i).1 s.shared).0) s.work;
}

abbrev requested : Threads
requested = record {
  shared = engine;
  work =
      assign 1 (some (unload name), asked (unload name))
        (assign 0 (some (infer name (4 ∷ []) 3), asked (infer name (4 ∷ []) 3))
          (λ _. (none, idle)));
}

interleaved :
    Reach
      (Move platform)
      (record { shared = engine; work = λ _. (none, idle) })
      (moved 1 (moved 0 requested))
interleaved =
    let first = later start (pick 0 (receive (infer name (4 ∷ []) 3))) in
    let second = later first (pick 1 (receive (unload name))) in
    later (later second (pick 0 (go_on _))) (pick 1 (go_on _))

reach-IsValid_example :
    IsValid (moved 1 (moved 0 requested)).shared
    × ((moved 1 (moved 0 requested)).shared.max_models ≡ 2)
    × ((i : ℕ)
        → Carries ((moved 1 (moved 0 requested)).work i).0 ((moved 1 (moved 0 requested)).work i).1)
reach-IsValid_example =
    reach-IsValid platform engine (moved 1 (moved 0 requested)) engine-IsValid interleaved
