-- ===== src/Training/Made.antt =====
-- What `encrypt_model` of scripts/train_model.py made, if it returns.
use confidential_ml_feature.Prelude.{
  ◌≡◌, ap, ◌∙◌, Option, none, some, ◌∷◌, ◌++◌, arith, Bytes, Result, ok, >>=-eq-ok,
}
use confidential_ml_feature.Python.Json.{obj}
use confidential_ml_feature.Python.Utf8
use confidential_ml_feature.Training.{
  Error, Toolkit, Args, or_fail, aad_of, encrypted_model_payload, encrypt_model, training_failed,
  key_not_generated, bad_data_key,
}

-- What `encrypt_model` made, if it returns.
pub record Encrypted {Model : Type 0} (tools : Toolkit Model) (args : Args) (blob key : Bytes)
    : Type 0 where
  pub model : Model
  pub data_key : Bytes
  pub aad : Bytes
  pub ciphertext : Bytes
  pub trained : tools.train args.n_estimators ≡ some model
  pub generated : tools.generate_data_key args.kms_key_id args.tenant_id ≡ some (data_key, key)
  pub encoded : Utf8.encode (args.tenant_id ++ b':' ∷ args.model_name) ≡ some aad
  pub encrypted :
      tools.aes_gcm_encrypt data_key tools.nonce (tools.joblib_dump model) aad ≡ some ciphertext
  pub written : tools.dumps (obj (encrypted_model_payload tools args model ciphertext aad)) ≡ blob

or_fail-eq-ok {ℓ} :
    {A : Type ℓ} (o : Option A) (e : Error) (a : A) → or_fail o e ≡ ok a → o ≡ some a
or_fail-eq-ok none e a h = absurd (ground (arith, h))
or_fail-eq-ok (some b) e a h = ground (arith, h)

abbrev the_ok : Bytes × Bytes → Result Error (Bytes × Bytes)
the_ok r = ok r

ok_pair : (a b c d : Bytes) → the_ok (a, c) ≡ the_ok (b, d) → (a ≡ b) × (c ≡ d)
ok_pair a b c d e = (ground (arith, e), ground (arith, e))

pub encrypt_model-Encrypted :
    {Model : Type 0} (tools : Toolkit Model) (args : Args) (blob key : Bytes)
    → encrypt_model tools args ≡ ok (blob, key)
    → Encrypted tools args blob key
unfolding encrypt_model aad_of
encrypt_model-Encrypted tools args blob key e =
    let (model, e1, r1) = >>=-eq-ok (or_fail (tools.train args.n_estimators) training_failed) _ e in
    let (pair, e2, r2) =
      >>=-eq-ok (or_fail (tools.generate_data_key args.kms_key_id args.tenant_id) key_not_generated)
        _ r1 in
    let (aad, e3, r3) = >>=-eq-ok (aad_of tools args) _ r2 in
    let (ciphertext, e4, r4) =
      >>=-eq-ok
        (or_fail (tools.aes_gcm_encrypt pair.0 tools.nonce (tools.joblib_dump model) aad)
          bad_data_key)
        _ r3 in
    record {
      model = model;
      data_key = pair.0;
      aad = aad;
      ciphertext = ciphertext;
      trained = or_fail-eq-ok _ _ _ e1;
      generated =
          or_fail-eq-ok _ _ _ e2 ∙ ap (λ k. some (pair.0, k)) (ok_pair _ blob pair.1 key r4).1;
      encoded = or_fail-eq-ok _ _ _ e3;
      encrypted = or_fail-eq-ok _ _ _ e4;
      written = (ok_pair _ blob pair.1 key r4).0;
    }
