-- ===== src/Tests/Secrets.antt =====
-- A KMS whose ciphertext is the tenant's name, after its length, and the plaintext.
use mathlib.Core.Path.{subst}
use confidential_ml_feature.Prelude.{
  ◌≡◌, refl, none, some, [], ◌∷◌, ◌++◌, arith, ◌=ₜ◌, if◌then◌else◌, Text, Bytes, length, take, drop,
  take-length-append, drop-length-append, Result, ok, err, Option,
}
use confidential_ml_feature.Python.Codes.{codes}
use confidential_ml_feature.Python.Strip.{is_empty, strip, lstrip}
use confidential_ml_feature.KmsClient.{Client, build_request, no_key_material}
use confidential_ml_feature.KmsClient
use confidential_ml_feature.KmsService.{
  empty_tenant_id, AwsError, Boto, Service, client_error, encrypt_data, decrypt_data,
  prepare_attested_decrypt_request, with_context, build_encryption_context, bytes_of,
}
use confidential_ml_feature.KmsService.Attested.{prepare_attested_decrypt_request-build_request}
use confidential_ml_feature.KmsService.Tenants.{IsBound, IsKms, expected, decrypt_data-encrypt_data}

abbrev sealed : Text → Bytes → Bytes
sealed tenant plaintext = length tenant ∷ (tenant ++ plaintext)

abbrev opened : Bytes → Text → Result AwsError (Option Bytes)
opened [] tenant = err (client_error none)
opened (n ∷ rest) tenant =
    if tenant =ₜ take n rest
    then ok (some (drop n rest))
    else err (client_error (some (codes "InvalidCiphertextException")))

abbrev boto : Boto (Unit {0})
boto = record {
  encrypt = λ key plaintext tenant w. (ok (some (sealed tenant plaintext)), w);
  decrypt = λ key blob tenant w. (opened blob tenant, w);
  generate_data_key = λ key tenant w. (ok (some (9 ∷ []), some (sealed tenant (9 ∷ []))), w);
}

sealed-IsBound :
    (key_id tenant : Text) (plaintext : Bytes)
    → IsBound boto key_id tenant plaintext (sealed tenant plaintext)
sealed-IsBound key_id tenant plaintext = record {
  some_bytes = λ e. ground (arith, e);
  bound = λ other later. rw (take-length-append tenant, drop-length-append tenant) refl;
}

boto-IsKms : IsKms boto
boto-IsKms = record {
  encrypts = λ key_id tenant plaintext blob world e.
      subst (IsBound boto key_id tenant plaintext) (ground (arith, e))
        (sealed-IsBound key_id tenant plaintext);
  generates = λ key_id tenant plaintext blob world e.
      subst (λ q. IsBound boto key_id tenant q blob) (ground (arith, e))
        (subst (IsBound boto key_id tenant (9 ∷ [])) (ground (arith, e))
          (sealed-IsBound key_id tenant (9 ∷ [])));
}

abbrev service : Service
service = record { key_id = codes "key" }

abbrev blob : Bytes
blob = 1 ∷ 97 ∷ 5 ∷ 6 ∷ []

encrypted : (encrypt_data boto service (5 ∷ 6 ∷ []) (codes " a ") tt).0 ≡ ok blob
unfolding encrypt_data with_context build_encryption_context bytes_of strip lstrip
encrypted = refl

decrypt_data-encrypt_data_example :
    (decrypt_data boto service blob (codes "b") tt).0
    ≡ expected (codes " a ") (codes "b") (5 ∷ 6 ∷ [])
decrypt_data-encrypt_data_example =
    decrypt_data-encrypt_data boto service (codes " a ") (codes "b") (5 ∷ 6 ∷ []) blob tt tt
      boto-IsKms encrypted

abbrev client : Client
client = record {
  key_id = codes "key";
  cache_ttl = 60;
  max_cache_size = 2;
  public_key = none;
  attestation_provider = λ key user_data nonce. ok (7 ∷ []);
  transport = λ request. KmsClient.other_failure;
  unwrap = none;
  sha256_hex = λ b. b;
}

prepare_attested_decrypt_request-build_request_example :
    prepare_attested_decrypt_request service blob (codes " a ") (7 ∷ []) ≡ (
      if is_empty (strip (codes " a "))
      then err empty_tenant_id
      else ok (build_request client blob (strip (codes " a ")) (7 ∷ [])))
prepare_attested_decrypt_request-build_request_example =
    prepare_attested_decrypt_request-build_request service client blob (codes " a ") (7 ∷ []) refl
