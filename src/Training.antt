-- ===== src/Training.antt =====
-- scripts/train_model.py: `main`, from its arguments to the two files that it writes. The directory
-- of the files is made where it is missing, and writing succeeds.
pub mod Made
pub mod Loaded
pub mod Served
use confidential_ml_feature.Prelude.{
  Option, none, some, List, [], ◌∷◌, ◌++◌, Text, Bytes, Result, ok, err, ◌>>=◌, ◌>>◌, ℤ, pos,
}
use confidential_ml_feature.Python.Codes.{codes}
use confidential_ml_feature.Python.Json.{Json, Fields, obj, field, end, str, int}
use confidential_ml_feature.Python.Utf8
use confidential_ml_feature.FeatureStore.Inference.{
  Parts, model_directory, encrypted_model_path, encrypted_key_path,
}

-- What `main` raises, by the call that raises it.
pub data Error : Type 0 where
  training_failed key_not_generated unicode_encode bad_data_key : Error

-- What the script takes from outside: the training and `joblib.dump` of a model, its
-- `n_features_in_` where it has one, the data key that AWS KMS generates for a key and a tenant, with
-- its ciphertext, twelve random bytes, AES-GCM, base64, `json.dumps` and the time.
pub record Toolkit (Model : Type 0) : Type 0 where
  pub train : ℤ → Option Model
  pub joblib_dump : Model → Bytes
  pub n_features_in : Model → Option ℤ
  pub generate_data_key : Text → Text → Option (Bytes × Bytes)
  pub nonce : Bytes
  pub aes_gcm_encrypt : Bytes → Bytes → Bytes → Bytes → Option Bytes
  pub b64encode : Bytes → Text
  pub dumps : Json → Bytes
  pub trained_at : Text

-- The arguments of the command line; the output directory is resolved, and the region is the
-- client's.
pub record Args : Type 0 where
  pub tenant_id : Text
  pub model_name : Text
  pub output_dir : Parts
  pub kms_key_id : Text
  pub n_estimators : ℤ

abbrev pub or_fail {ℓ} : {A : Type ℓ} → Option A → Error → Result Error A
or_fail none e = err e
or_fail (some a) e = ok a

-- int(getattr(model, "n_features_in_", 0))
abbrev pub dimension_of : Option ℤ → ℤ
dimension_of none = pos 0
dimension_of (some n) = n

module _ {Model : Type 0} (tools : Toolkit Model) (args : Args) where
  -- f"{args.tenant_id}:{args.model_name}".encode()
  unfoldable pub aad_of : Result Error Bytes
  aad_of = or_fail (Utf8.encode (args.tenant_id ++ b':' ∷ args.model_name)) unicode_encode

  unfoldable pub encrypted_model_payload : Model → Bytes → Bytes → Fields
  encrypted_model_payload model ciphertext aad = field (codes "algorithm") (str (codes "AESGCM")) (
      field (codes "tenant_id") (str args.tenant_id) (
        field (codes "model_name") (str args.model_name) (
          field (codes "feature_dimension") (int (dimension_of (tools.n_features_in model))) (
            field (codes "nonce_b64") (str (tools.b64encode tools.nonce)) (
              field (codes "ciphertext_b64") (str (tools.b64encode ciphertext)) (
                field (codes "aad_b64") (str (tools.b64encode aad)) (
                  field (codes "trained_at") (str tools.trained_at) (
                    field (codes "framework") (str (codes "scikit-learn"))
                      (field (codes "serializer") (str (codes "joblib")) end)))))))))

  -- The encrypted model and the encrypted data key.
  unfoldable pub encrypt_model : Result Error (Bytes × Bytes)
  unfolding aad_of encrypted_model_payload
  encrypt_model = do
    model ← or_fail (tools.train args.n_estimators) training_failed
    (plaintext_key, encrypted_key) ←
        or_fail (tools.generate_data_key args.kms_key_id args.tenant_id) key_not_generated
    aad ← aad_of
    ciphertext ←
        or_fail (tools.aes_gcm_encrypt plaintext_key tools.nonce (tools.joblib_dump model) aad)
          bad_data_key
    ok (tools.dumps (obj (encrypted_model_payload model ciphertext aad)), encrypted_key)

  -- `main`: the files with their contents.
  unfoldable pub main : Result Error (List (Parts × Bytes))
  unfolding encrypt_model
  main = do
    (blob, encrypted_key) ← encrypt_model
    let directory = model_directory args.output_dir args.tenant_id args.model_name
    ok ((encrypted_model_path directory, blob) ∷ (encrypted_key_path directory, encrypted_key) ∷ [])
