-- ===== src/Training/Served.antt =====
-- From the files that scripts/train_model.py writes, over the host's inference route, to the model that
-- the enclave loads.
use mathlib.Core.Path.{subst}
use confidential_ml_feature.Python.Json.{str}
use confidential_ml_feature.Engine.{Platform, Engine}
use confidential_ml_feature.Engine.Loading.{store_model, load_model}
use confidential_ml_feature.Server.{load_bundle_bytes}
use confidential_ml_feature.Training.Loaded.{IsInverse, IsServable, load_model-encrypt_model}
use confidential_ml_feature.Prelude.{
  ◌≡◌, refl, true, false, some, List, [], ◌∷◌, arith, Bytes, All, ok, >>=-eq-ok, ℤ,
}
use confidential_ml_feature.Python.Strip.{is_empty}
use confidential_ml_feature.FeatureStore.Inference.{
  Parts, Files, load_model_artifacts, checked_artifacts, model_directory, encrypted_model_path,
  encrypted_key_path,
}
use confidential_ml_feature.Training.{Toolkit, Args, encrypt_model, main}

-- The files hold what was written.
abbrev pub Holds : Files → List (Parts × Bytes) → Type 0
Holds files writes =
    All (λ (w : Parts × Bytes). (files.is_file w.0 ≡ true) × (files.read_bytes w.0 ≡ some w.1))
      writes

-- The two files of a model, with their contents.
abbrev pub written : Args → Bytes → Bytes → List (Parts × Bytes)
written args blob key =
    (encrypted_model_path (model_directory args.output_dir args.tenant_id args.model_name), blob)
    ∷ (encrypted_key_path (model_directory args.output_dir args.tenant_id args.model_name), key)
    ∷ []

module _ {Model : Type 0} (tools : Toolkit Model) (args : Args) where
  main-written :
      (writes : List (Parts × Bytes))
      → main tools args ≡ ok writes
      → (blob : Bytes) × (key : Bytes) × (encrypt_model tools args ≡ ok (blob, key))
        × (writes ≡ written args blob key)
  unfolding main
  main-written writes e =
      let (files, made, rest) = >>=-eq-ok (encrypt_model tools args) _ e in
      (files.0, files.1, made, ground (arith, rest))

  checked_artifacts-ok :
      (blob key : Bytes)
      → is_empty blob ≡ false
      → is_empty key ≡ false
      → checked_artifacts (some blob) (some key) ≡ ok (blob, key)
  unfolding checked_artifacts
  checked_artifacts-ok [] key b k = absurd (ground (arith, b))
  checked_artifacts-ok (b ∷ bs) [] h k = absurd (ground (arith, k))
  checked_artifacts-ok (b ∷ bs) (c ∷ cs) h k = refl

  load_model_artifacts-written :
      (files : Files) (blob key : Bytes)
      → Holds files (written args blob key)
      → is_empty blob ≡ false
      → is_empty key ≡ false
      → load_model_artifacts files args.output_dir args.tenant_id args.model_name ≡ ok (blob, key)
  unfolding load_model_artifacts
  load_model_artifacts-written files blob key ((m, n), ((k, l), u)) some_blob some_key =
      rw (m, k, n, l) (checked_artifacts-ok blob key some_blob some_key)

module _ {Keys Model : Type 0} (p : Platform Keys Model) (tools : Toolkit Model) (args : Args) where
  -- If the script returns and the host's files hold what it wrote, the enclave's libraries invert the
  -- script's, and JSON, the KMS and the model are as `IsServable` says, under a name without blanks
  -- around it that is not loaded: then the inference route reads from the same directory a blob and a
  -- key for which the enclave stores the very model that was trained, with its number of features.
  pub load_model-main :
      (files : Files) (writes : List (Parts × Bytes)) (engine : Engine Keys Model) (n : ℤ)
      → main tools args ≡ ok writes
      → Holds files writes
      → IsInverse tools p
      → ((blob key : Bytes)
          → writes ≡ written args blob key
          → IsServable p tools args engine blob key n)
      → (blob : Bytes) × (key : Bytes) × (model : Model) × (load_model_artifacts files
            args.output_dir args.tenant_id args.model_name
          ≡ ok (blob, key))
        × (tools.train args.n_estimators ≡ some model)
        × (load_model p args.model_name
              (load_bundle_bytes p args.tenant_id args.model_name
                (tools.b64encode key)
                (str (tools.b64encode blob)))
              engine
            ≡ (
              ok tt,
              store_model p args.model_name
                  (record { model_name = args.model_name; model = model; feature_dimension = n })
                  (record engine { keys = (p.decrypt_data_key key args.tenant_id engine.keys).1 }),
            ))
  load_model-main files writes engine n returned held inverse servable =
      let (blob, key, made, e) = main-written tools args writes returned in
      let s = servable blob key e in
      let (model, trained, loaded) =
        load_model-encrypt_model p tools args engine blob key n made inverse s in
      (
        blob,
        key,
        model,
        load_model_artifacts-written tools args files blob key (subst (Holds files) e held)
            s.some_files.0 s.some_files.1,
        trained,
        loaded,
      )
