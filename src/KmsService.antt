-- ===== src/KmsService.antt =====
-- feature_store/services/kms_service.py: `KMSService`. The boto3 client is a parameter, which keeps
-- the state of AWS KMS.
pub mod Tenants
pub mod Attested
use confidential_ml_feature.Prelude.{
  Option, none, some, [], ◌∷◌, ◌=ₜ◌, if◌then◌else◌, Text, Bytes, Result, ok, err, ◌>>=◌, ◌>>◌,
}
use confidential_ml_feature.Python.Codes.{codes}
use confidential_ml_feature.Python.Strip.{strip, is_empty}
use confidential_ml_feature.KmsClient.{Request}

-- The exceptions of boto3 that are caught: a ClientError with the code of its response, where that
-- has one, and a BotoCoreError.
pub data AwsError : Type 0 where
  client_error : Option Text → AwsError
  botocore_error : AwsError

pub data Operation : Type 0 where
  encrypting decrypting generating : Operation

-- What the message of a KMSServiceError says of the cause.
pub data Cause : Type 0 where
  invalid_ciphertext_or_context access_denied key_disabled unknown : Cause
  returned : Text → Cause

pub data Exception : Type 0 where
  empty_key_id empty_plaintext empty_ciphertext empty_document empty_tenant_id : Exception
  kms_failed : Operation → Cause → Exception
  no_ciphertext_blob no_plaintext : Operation → Exception

-- The calls of the boto3 client, with the tenant of the encryption context; the bytes of the response
-- are `none` where it has no bytes there.
pub record Boto (World : Type 0) : Type 0 where
  pub encrypt : Text → Bytes → Text → World → Result AwsError (Option Bytes) × World
  pub decrypt : Text → Bytes → Text → World → Result AwsError (Option Bytes) × World
  pub generate_data_key :
      Text → Text → World → Result AwsError (Option Bytes × Option Bytes) × World

pub record Service : Type 0 where
  pub key_id : Text

-- `__init__`
unfoldable pub make_service : Text → Result Exception Service
make_service key_id =
    if is_empty (strip key_id) then err empty_key_id else ok (record { key_id = strip key_id })

-- `_build_encryption_context`: the value of its one key.
unfoldable pub build_encryption_context : Text → Result Exception Text
build_encryption_context tenant_id =
    if is_empty (strip tenant_id) then err empty_tenant_id else ok (strip tenant_id)

-- The texts that follow the message, by the code of the error.
unfoldable pub cause_of : Text → Cause
cause_of code =
    if code =ₜ codes "InvalidCiphertextException"
    then invalid_ciphertext_or_context
    else if code =ₜ codes "AccessDeniedException"
    then access_denied
    else if code =ₜ codes "DisabledException"
    then key_disabled
    else returned code

-- `_translate_kms_error`
unfoldable pub translate_kms_error : Operation → AwsError → Exception
unfolding cause_of
translate_kms_error operation (client_error (some code)) = kms_failed operation (cause_of code)
translate_kms_error operation (client_error none) =
    kms_failed operation (cause_of (codes "UnknownError"))
translate_kms_error operation botocore_error = kms_failed operation unknown

-- The bytes of a response, or the error for a response without them.
unfoldable pub bytes_of :
    Operation → Exception → Result AwsError (Option Bytes) → Result Exception Bytes
unfolding translate_kms_error
bytes_of operation missing (ok (some bytes)) = ok bytes
bytes_of operation missing (ok none) = err missing
bytes_of operation missing (err e) = err (translate_kms_error operation e)

unfoldable pub key_pair :
    Result AwsError (Option Bytes × Option Bytes) → Result Exception (Bytes × Bytes)
unfolding translate_kms_error
key_pair (ok (some plaintext, some blob)) = ok (plaintext, blob)
key_pair (ok (none, blob)) = err (no_plaintext generating)
key_pair (ok (some plaintext, none)) = err (no_ciphertext_blob generating)
key_pair (err e) = err (translate_kms_error generating e)

module _ {World : Type 0} (boto : Boto World) (service : Service) where
  -- A call under the encryption context of a tenant, if there is one.
  unfoldable pub with_context {ℓ} :
      {A : Type ℓ}
      → Result Exception Text
      → (Text → World → Result Exception A × World)
      → World
      → Result Exception A × World
  with_context (ok tenant_id) call world = call tenant_id world
  with_context (err e) call world = (err e, world)

  unfoldable pub encrypt_data : Bytes → Text → World → Result Exception Bytes × World
  unfolding bytes_of with_context
  encrypt_data [] tenant_id world = (err empty_plaintext, world)
  encrypt_data (b ∷ bs) tenant_id world =
      with_context (build_encryption_context tenant_id)
        (λ (tenant : Text) (w : World).
          let (r, after) = boto.encrypt service.key_id (b ∷ bs) tenant w in
          (bytes_of encrypting (no_ciphertext_blob encrypting) r, after))
        world

  unfoldable pub decrypt_data : Bytes → Text → World → Result Exception Bytes × World
  unfolding bytes_of with_context
  decrypt_data [] tenant_id world = (err empty_ciphertext, world)
  decrypt_data (b ∷ bs) tenant_id world =
      with_context (build_encryption_context tenant_id)
        (λ (tenant : Text) (w : World).
          let (r, after) = boto.decrypt service.key_id (b ∷ bs) tenant w in
          (bytes_of decrypting (no_plaintext decrypting) r, after))
        world

  unfoldable pub generate_data_key : Text → World → Result Exception (Bytes × Bytes) × World
  unfolding key_pair with_context
  generate_data_key tenant_id world =
      with_context (build_encryption_context tenant_id)
        (λ (tenant : Text) (w : World).
          let (r, after) = boto.generate_data_key service.key_id tenant w in (key_pair r, after))
        world

-- `build_attested_recipient`: the document of the recipient, and the algorithm.
unfoldable pub build_attested_recipient : Bytes → Result Exception (Text × Bytes)
build_attested_recipient [] = err empty_document
build_attested_recipient (b ∷ bs) = ok (codes "RSAES_OAEP_SHA_256", b ∷ bs)

unfoldable pub prepare_attested_decrypt_request :
    Service → Bytes → Text → Bytes → Result Exception Request
unfolding build_encryption_context build_attested_recipient
prepare_attested_decrypt_request service [] tenant_id document = err empty_ciphertext
prepare_attested_decrypt_request service (b ∷ bs) tenant_id document = do
  tenant ← build_encryption_context tenant_id
  recipient ← build_attested_recipient document
  ok (record {
    key_id = service.key_id;
    ciphertext_blob = b ∷ bs;
    tenant_id = tenant;
    key_encryption_algorithm = recipient.0;
    attestation_document = recipient.1;
  })
