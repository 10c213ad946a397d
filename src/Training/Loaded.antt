-- ===== src/Training/Loaded.antt =====
-- The files that scripts/train_model.py writes against `InferenceEngine.load_model`.
use confidential_ml_feature.Prelude.{
  ◌=ₜ◌, ◌≡◌, refl, ◌∙◌, inl, inr, true, false, none, some, ◌∷◌, ◌++◌, =ₜ-refl, Bool-cases, Text,
  Bytes, ok, ℤ, positive,
}
use confidential_ml_feature.Python.Codes.{codes}
use confidential_ml_feature.Python.Json.{Fields, obj, str, field, end, get_field}
use confidential_ml_feature.Python.Strip.{strip, is_empty}
use confidential_ml_feature.Python.Utf8
use confidential_ml_feature.OrderedDict
use confidential_ml_feature.Engine.{LoadedModel, Platform, Engine}
use confidential_ml_feature.Engine.Loading.{
  Bundle, parse_model_payload, parse_load_request, build_aad, extract_feature_dimension,
  open_bundle, open_model, store_model, finish_load, decrypt_and_store, load_bundle, load_model,
}
use confidential_ml_feature.Server.{load_bundle_bytes}
use confidential_ml_feature.Training.{Toolkit, Args, encrypted_model_payload, encrypt_model}
use confidential_ml_feature.Training.Made.{Encrypted, encrypt_model-Encrypted}

-- What the enclave's libraries make of the script's: base64, AES-GCM and joblib are inverted, and a
-- model keeps its attribute.
pub record IsInverse {Keys Model : Type 0} (tools : Toolkit Model) (p : Platform Keys Model)
    : Type 0 where
  pub decoded : (b : Bytes) → p.b64decode (tools.b64encode b) ≡ some b
  pub decrypted :
      (key nonce plaintext aad ciphertext : Bytes)
      → tools.aes_gcm_encrypt key nonce plaintext aad ≡ some ciphertext
      → p.aes_gcm_decrypt key nonce ciphertext aad ≡ some plaintext
  pub restored : (m : Model) → p.joblib_load (tools.joblib_dump m) ≡ some m
  pub attribute : (m : Model) → p.n_features_in m ≡ tools.n_features_in m

-- The bundle of a request for the two files.
abbrev pub bundle_fields : {Model : Type 0} → Toolkit Model → Args → Bytes → Bytes → Fields
bundle_fields tools args blob key = field (codes "tenant_id") (str args.tenant_id) (
    field (codes "model_name") (str args.model_name) (
      field (codes "encrypted_model_key") (str (tools.b64encode key))
        (field (codes "encrypted_model_blob") (str (tools.b64encode blob)) end)))

module _ {Keys Model : Type 0} (p : Platform Keys Model) (tools : Toolkit Model) (args : Args) where
  build_aad-same :
      (aad : Bytes)
      → IsInverse tools p
      → Utf8.encode (args.tenant_id ++ b':' ∷ args.model_name) ≡ some aad
      → build_aad p args.tenant_id args.model_name (some (str (tools.b64encode aad))) ≡ ok aad
  unfolding build_aad
  build_aad-same aad inverse e = elim (Bool-cases (is_empty (tools.b64encode aad))) [
    | inl h ↦ rw h (rw e refl)
    | inr h ↦ rw h (rw (inverse.decoded aad) refl)
  ]

  open_model-payload :
      (blob key : Bytes) (n : ℤ) (x : Encrypted tools args blob key)
      → IsInverse tools p
      → p.loads blob ≡ some (obj (encrypted_model_payload tools args x.model x.ciphertext x.aad))
      → tools.n_features_in x.model ≡ some n
      → positive n ≡ true
      → open_model p args.model_name args.tenant_id x.data_key blob
        ≡ ok (record { model_name = args.model_name; model = x.model; feature_dimension = n })
  unfolding open_model parse_model_payload encrypted_model_payload get_field
      extract_feature_dimension ◌=ₜ◌
  open_model-payload blob key n x inverse read dimension above = rw read (
      rw (inverse.decoded tools.nonce) (
        rw (inverse.decoded x.ciphertext) (
          rw (build_aad-same x.aad inverse x.encoded) (
            rw
              (inverse.decrypted x.data_key tools.nonce (tools.joblib_dump x.model) x.aad
                x.ciphertext x.encrypted)
              (rw (inverse.restored x.model) (
                rw (inverse.attribute x.model, extract_feature_dimension)
                  (rw dimension (rw above refl))))))))

  open_bundle-fields :
      (blob key : Bytes)
      → IsInverse tools p
      → p.loads (p.dumps (obj (bundle_fields tools args blob key)))
        ≡ some (obj (bundle_fields tools args blob key))
      → open_bundle p args.model_name (p.dumps (obj (bundle_fields tools args blob key)))
        ≡ ok (
          record {
            tenant_id = args.tenant_id;
            model_name = args.model_name;
            encrypted_model_key = tools.b64encode key;
            encrypted_model_blob = tools.b64encode blob;
          },
          key,
          blob,
        )
  unfolding open_bundle parse_load_request get_field ◌=ₜ◌
  open_bundle-fields blob key inverse read =
      rw read
        (rw (=ₜ-refl args.model_name) (rw (inverse.decoded key) (rw (inverse.decoded blob) refl)))

  -- What JSON, the KMS and the model have to be for one pair of files, under a name without blanks
  -- around it that is not loaded.
  pub record IsServable (engine : Engine Keys Model) (blob key : Bytes) (n : ℤ) : Type 0 where
    pub plain : strip args.model_name ≡ args.model_name
    pub named : is_empty args.model_name ≡ false
    pub some_text : is_empty (p.dumps (obj (bundle_fields tools args blob key))) ≡ false
    pub bundle :
        p.loads (p.dumps (obj (bundle_fields tools args blob key)))
        ≡ some (obj (bundle_fields tools args blob key))
    pub some_files : (is_empty blob ≡ false) × (is_empty key ≡ false)
    pub payload :
        (x : Encrypted tools args blob key)
        → p.loads blob ≡ some (obj (encrypted_model_payload tools args x.model x.ciphertext x.aad))
    pub released :
        (x : Encrypted tools args blob key)
        → (p.decrypt_data_key key args.tenant_id engine.keys).0 ≡ some x.data_key
    pub dimension :
        (x : Encrypted tools args blob key)
        → (tools.n_features_in x.model ≡ some n) × (positive n ≡ true)
    pub unloaded : OrderedDict.get args.model_name engine.models ≡ none

  decrypt_and_store-released :
      (blob key data_key : Bytes) (loaded : LoadedModel Model) (bundle : Bundle)
      (engine : Engine Keys Model)
      → (p.decrypt_data_key key bundle.tenant_id engine.keys).0 ≡ some data_key
      → open_model p args.model_name bundle.tenant_id data_key blob ≡ ok loaded
      → decrypt_and_store p args.model_name bundle key blob engine ≡ (
        ok tt,
        store_model p args.model_name loaded
            (record engine { keys = (p.decrypt_data_key key bundle.tenant_id engine.keys).1 }),
      )
  unfolding decrypt_and_store finish_load
  decrypt_and_store-released blob key data_key loaded bundle engine released opened =
      rw (released, decrypt_and_store) (rw opened refl)

  load_model-unloaded :
      (name : Text) (weights : Bytes) (engine : Engine Keys Model)
      → strip name ≡ name
      → is_empty name ≡ false
      → is_empty weights ≡ false
      → OrderedDict.get name engine.models ≡ none
      → load_model p name weights engine ≡ load_bundle p name (open_bundle p name weights) engine
  unfolding load_model
  load_model-unloaded name weights engine plain named some_bytes unloaded =
      rw plain (rw named (rw some_bytes (rw unloaded (rw plain refl))))

  load_bundle-fields :
      (engine : Engine Keys Model) (blob key data_key : Bytes) (loaded : LoadedModel Model)
      → IsInverse tools p
      → p.loads (p.dumps (obj (bundle_fields tools args blob key)))
        ≡ some (obj (bundle_fields tools args blob key))
      → (p.decrypt_data_key key args.tenant_id engine.keys).0 ≡ some data_key
      → open_model p args.model_name args.tenant_id data_key blob ≡ ok loaded
      → load_bundle p args.model_name
          (open_bundle p args.model_name (p.dumps (obj (bundle_fields tools args blob key))))
          engine
        ≡ (
          ok tt,
          store_model p args.model_name loaded
              (record engine { keys = (p.decrypt_data_key key args.tenant_id engine.keys).1 }),
        )
  unfolding load_bundle
  load_bundle-fields engine blob key data_key loaded inverse read released opened =
      rw (open_bundle-fields blob key inverse read)
        (decrypt_and_store-released blob key data_key loaded _ engine released opened)

  -- The bundle of the two files is loaded as the trained model.
  pub load_model-encrypt_model :
      (engine : Engine Keys Model) (blob key : Bytes) (n : ℤ)
      → encrypt_model tools args ≡ ok (blob, key)
      → IsInverse tools p
      → IsServable engine blob key n
      → (model : Model) × (tools.train args.n_estimators ≡ some model)
        × (load_model p args.model_name
              (load_bundle_bytes p args.tenant_id args.model_name
                (tools.b64encode key)
                (str (tools.b64encode blob)))
              engine
            ≡ (
              ok tt,
              store_model p args.model_name
                  (record { model_name = args.model_name; model = model; feature_dimension = n })
                  (record engine { keys = (p.decrypt_data_key key args.tenant_id engine.keys).1 }),
            ))
  unfolding load_bundle_bytes
  load_model-encrypt_model engine blob key n made inverse servable =
      let x = encrypt_model-Encrypted tools args blob key made in
      let (dimension, above) = servable.dimension x in
      (
        x.model,
        x.trained,
        load_model-unloaded args.model_name (p.dumps (obj (bundle_fields tools args blob key)))
              engine servable.plain servable.named servable.some_text servable.unloaded
            ∙ load_bundle-fields engine blob key x.data_key
                (record { model_name = args.model_name; model = x.model; feature_dimension = n })
                inverse servable.bundle (servable.released x)
                (open_model-payload blob key n x inverse (servable.payload x) dimension above),
      )
