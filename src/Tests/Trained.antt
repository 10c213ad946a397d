-- ===== src/Tests/Trained.antt =====
-- A script whose cipher and base64 are the identity, and an enclave that inverts them.
use confidential_ml_feature.Prelude.{
  ℕ, ◌≡◌, refl, Bool, true, false, Option, none, some, List, [], ◌∷◌, arith, ◌==◌, ◌=ₜ◌,
  if◌then◌else◌, Bytes, ok, pos,
}
use confidential_ml_feature.Python.Codes.{codes}
use confidential_ml_feature.Python.Json.{Json, Fields, obj, str, get_field}
use confidential_ml_feature.Python.Strip.{strip, lstrip}
use confidential_ml_feature.Python.Utf8
use confidential_ml_feature.OrderedDict
use confidential_ml_feature.Engine.{Platform, Engine, LoadedModel}
use confidential_ml_feature.Engine.Loading.{
  store_model, load_model, load_bundle, decrypt_and_store, finish_load, open_bundle, open_model,
  parse_load_request, parse_model_payload, build_aad, extract_feature_dimension,
}
use confidential_ml_feature.Engine.Laws.{LoadOutcome, load_model-LoadOutcome}
use confidential_ml_feature.Server.{load_bundle_bytes}
use confidential_ml_feature.FeatureStore.Inference.{Parts, Files, join, load_model_artifacts}
use confidential_ml_feature.Training.{
  Toolkit, Args, main, encrypt_model, aad_of, encrypted_model_payload,
}
use confidential_ml_feature.Training.Made.{Encrypted}
use confidential_ml_feature.Training.Loaded.{IsInverse, IsServable, bundle_fields}
use confidential_ml_feature.Training.Served.{Holds, written, load_model-main}

abbrev tools : Toolkit ℕ
tools = record {
  train = λ n. some 7;
  joblib_dump = λ m. m ∷ [];
  n_features_in = λ m. some (pos 1);
  generate_data_key = λ key tenant. some (4 ∷ [], 9 ∷ []);
  nonce = 3 ∷ [];
  aes_gcm_encrypt = λ key nonce plaintext aad. some plaintext;
  b64encode = λ b. b;
  dumps = λ v. 2 ∷ [];
  trained_at = codes "now";
}

abbrev args : Args
args = record {
  tenant_id = codes "a";
  model_name = codes "m";
  output_dir = codes "models" ∷ [];
  kms_key_id = codes "k";
  n_estimators = pos 50;
}

abbrev payload : Fields
payload = encrypted_model_payload tools args 7 (7 ∷ []) (codes "a:m")

abbrev bundle : Fields
bundle = bundle_fields tools args (2 ∷ []) (9 ∷ [])

abbrev loads : Bytes → Option Json
loads [] = none
loads (b ∷ bs) = if b == 2 then some (obj payload) else some (obj bundle)

abbrev first_of : Bytes → Option ℕ
first_of [] = none
first_of (b ∷ bs) = some b

abbrev platform : Platform (Unit {0}) ℕ
platform = record {
  decrypt_data_key = λ key tenant keys. (some (4 ∷ []), keys);
  b64decode = λ s. some s;
  loads = loads;
  dumps = λ v. 1 ∷ [];
  aes_gcm_decrypt = λ key nonce ciphertext aad. some ciphertext;
  joblib_load = first_of;
  n_features_in = λ m. some (pos 1);
  model_predict = λ m xs. some m;
  max_probability = λ m xs. none;
  float_one = 1;
  to_float = λ v. ok 4;
}

abbrev engine : Engine (Unit {0}) ℕ
engine = record { models = []; max_models = 2; keys = tt }

-- The files hold the encrypted key under the one name and the blob under the other.
abbrev last_is_key : Parts → Bool
last_is_key [] = false
last_is_key (p ∷ []) = p =ₜ codes "encrypted_data_key.bin"
last_is_key (p ∷ q ∷ ps) = last_is_key (q ∷ ps)

abbrev read : Parts → Option Bytes
read path = if last_is_key path then some (9 ∷ []) else some (2 ∷ [])

tools-IsInverse : IsInverse tools platform
tools-IsInverse = record {
  decoded = λ b. refl;
  decrypted = λ key nonce plaintext aad ciphertext e. ground (arith, e);
  restored = λ m. refl;
  attribute = λ m. refl;
}

abbrev files : Files
files = record {
  is_file = λ path. true;
  read_bytes = read;
  is_dir = λ path. true;
  exists = λ path. true;
  iterdir = λ path. some [];
}

abbrev writes : List (Parts × Bytes)
writes = written args (2 ∷ []) (9 ∷ [])

returned : main tools args ≡ ok writes
unfolding main encrypt_model aad_of Utf8.encode
returned = refl

files-Holds : Holds files writes
unfolding ◌=ₜ◌ join
files-Holds = ((refl, refl), ((refl, refl), tt))

is_plain : strip (codes "m") ≡ codes "m"
unfolding strip lstrip
is_plain = refl

-- What any run of the script with these files made.
same_payload :
    (blob key : Bytes) (x : Encrypted tools args blob key)
    → encrypted_model_payload tools args x.model x.ciphertext x.aad ≡ payload
unfolding Utf8.encode
same_payload blob key x =
    let m : x.model ≡ 7 = ground (arith, x.trained) in
    let c : x.ciphertext ≡ 7 ∷ [] = ground (arith, x.encrypted, m) in
    let a : x.aad ≡ codes "a:m" = ground (arith, x.encoded) in rw (m, c, a) refl

servable :
    (blob key : Bytes)
    → writes ≡ written args blob key
    → IsServable platform tools args engine blob key (pos 1)
unfolding OrderedDict.get
servable blob key e =
    let b : blob ≡ 2 ∷ [] = ground (arith, e) in
    let k : key ≡ 9 ∷ [] = ground (arith, e) in
    record {
      plain = is_plain;
      named = refl;
      some_text = refl;
      bundle = rw (b, k) refl;
      some_files = (rw b refl, rw k refl);
      payload = λ x. rw (b, same_payload blob key x) refl;
      released = λ x. ground (arith, x.generated);
      dimension = λ x. (refl, refl);
      unloaded = refl;
    }

load_model-main_example :
    (blob : Bytes) × (key : Bytes) × (model : ℕ) × (load_model_artifacts files
        (codes "models" ∷ [])
        (codes "a")
        (codes "m")
      ≡ ok (blob, key))
    × (some 7 ≡ some model)
    × (load_model platform
          (codes "m")
          (load_bundle_bytes platform (codes "a") (codes "m") key (str blob))
          engine
        ≡ (
          ok tt,
          store_model platform
              (codes "m")
              (record { model_name = codes "m"; model = model; feature_dimension = pos 1 })
              engine,
        ))
load_model-main_example =
    load_model-main platform tools args files writes engine (pos 1) returned files-Holds
      tools-IsInverse servable

-- An engine that is full, with two other models.
abbrev other : LoadedModel ℕ
other = record { model_name = codes "n"; model = 5; feature_dimension = pos 1 }

abbrev full : Engine (Unit {0}) ℕ
full = record { models = (codes "n", other) ∷ (codes "o", other) ∷ []; max_models = 2; keys = tt }

abbrev weights : Bytes
weights = load_bundle_bytes platform (codes "a") (codes "m") (9 ∷ []) (str (2 ∷ []))

-- The load succeeds, and the older model gives way.
load_of_full :
    ((load_model platform (codes "m") weights full).0 ≡ ok tt)
    × (OrderedDict.keys (load_model platform (codes "m") weights full).1.models
        ≡ codes "o" ∷ codes "m" ∷ [])
unfolding load_model load_bundle decrypt_and_store finish_load store_model open_bundle open_model
    parse_load_request parse_model_payload build_aad extract_feature_dimension strip lstrip
    get_field ◌=ₜ◌ OrderedDict.get OrderedDict.evict OrderedDict.move_to_end OrderedDict.insert
    OrderedDict.remove encrypted_model_payload load_bundle_bytes Utf8.encode
load_of_full = (refl, refl)

load_model-LoadOutcome_example :
    LoadOutcome platform
      (strip (codes "m"))
      weights
      full
      (load_model platform (codes "m") weights full)
load_model-LoadOutcome_example =
    load_model-LoadOutcome platform (codes "m") weights full (omega arith)
