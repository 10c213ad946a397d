-- ===== src/KmsService/Tenants.antt =====
-- The tenants to whom `encrypt_data` and `generate_data_key` of `KMSService` bind a ciphertext.
use mathlib.Core.Path.{subst}
use confidential_ml_feature.Prelude.{
  ◌≡◌, refl, ◌≢◌, inl, inr, Bool, true, false, Option, none, some, [], ◌∷◌, arith, ◌=ₜ◌,
  if◌then◌else◌, Bool-cases, Text, Bytes, Result, ok, err,
}
use confidential_ml_feature.Python.Codes.{codes}
use confidential_ml_feature.Python.Strip.{strip, is_empty}
use confidential_ml_feature.KmsService.{
  Operation, AwsError, Boto, Service, Exception, empty_tenant_id, client_error, decrypting,
  kms_failed, invalid_ciphertext_or_context, build_encryption_context, encrypt_data, decrypt_data,
  generate_data_key, bytes_of, key_pair, with_context, translate_kms_error, cause_of,
}

-- What AWS KMS documents of a ciphertext: it is not empty, and under its key it is decrypted, at any
-- time, for the encryption context of its encryption, while any other is an
-- InvalidCiphertextException.
pub record IsBound {World : Type 0} (boto : Boto World) (key_id tenant : Text)
    (plaintext blob : Bytes) : Type 0 where
  pub some_bytes : blob ≢ []
  pub bound :
      (other : Text) (later : World)
      → (boto.decrypt key_id blob other later).0 ≡ (
          if other =ₜ tenant
          then ok (some plaintext)
          else err (client_error (some (codes "InvalidCiphertextException"))))

pub record IsKms {World : Type 0} (boto : Boto World) : Type 0 where
  pub encrypts :
      (key_id tenant : Text) (plaintext blob : Bytes) (world : World)
      → (boto.encrypt key_id plaintext tenant world).0 ≡ ok (some blob)
      → IsBound boto key_id tenant plaintext blob
  pub generates :
      (key_id tenant : Text) (plaintext blob : Bytes) (world : World)
      → (boto.generate_data_key key_id tenant world).0 ≡ ok (some plaintext, some blob)
      → IsBound boto key_id tenant plaintext blob

-- What `decrypt_data` should do with a ciphertext of the tenant.
abbrev pub expected : Text → Text → Bytes → Result Exception Bytes
expected tenant_id other plaintext =
    if is_empty (strip other)
    then err empty_tenant_id
    else if strip other =ₜ strip tenant_id
    then ok plaintext
    else err (kms_failed decrypting invalid_ciphertext_or_context)

bytes_of-eq-ok :
    (operation : Operation) (missing : Exception) (r : Result AwsError (Option Bytes))
    (bytes : Bytes)
    → bytes_of operation missing r ≡ ok bytes
    → r ≡ ok (some bytes)
unfolding bytes_of
bytes_of-eq-ok operation missing (ok (some bs)) bytes e = ground arith
bytes_of-eq-ok operation missing (ok none) bytes e = absurd (ground arith)
bytes_of-eq-ok operation missing (err x) bytes e = absurd (ground arith)

key_pair-eq-ok :
    (r : Result AwsError (Option Bytes × Option Bytes)) (plaintext blob : Bytes)
    → key_pair r ≡ ok (plaintext, blob)
    → r ≡ ok (some plaintext, some blob)
unfolding key_pair
key_pair-eq-ok (ok (some p, some c)) plaintext blob e = ground arith
key_pair-eq-ok (ok (none, c)) plaintext blob e = absurd (ground arith)
key_pair-eq-ok (ok (some p, none)) plaintext blob e = absurd (ground arith)
key_pair-eq-ok (err x) plaintext blob e = absurd (ground arith)

answered :
    (same : Bool) (missing : Exception) (plaintext : Bytes)
    → bytes_of decrypting missing (
        if same
        then ok (some plaintext)
        else err (client_error (some (codes "InvalidCiphertextException"))))
      ≡ (if same then ok plaintext else err (kms_failed decrypting invalid_ciphertext_or_context))
unfolding bytes_of translate_kms_error cause_of ◌=ₜ◌
answered true missing plaintext = refl
answered false missing plaintext = refl

build_encryption_context-eq-ok :
    (tenant_id tenant : Text)
    → build_encryption_context tenant_id ≡ ok tenant
    → tenant ≡ strip tenant_id
unfolding build_encryption_context
build_encryption_context-eq-ok tenant_id tenant e = elim (Bool-cases (is_empty (strip tenant_id))) [
  | inl blank ↦ absurd (ground (arith, blank, e))
  | inr full ↦ ground (arith, full, e)
]

module _ {World : Type 0} (boto : Boto World) (service : Service) where
  with_context-eq-ok :
      {A : Type 0} (context : Result Exception Text)
      (call : Text → World → Result Exception A × World) (world : World) (a : A)
      → (with_context boto service context call world).0 ≡ ok a
      → (tenant : Text) × (context ≡ ok tenant) × ((call tenant world).0 ≡ ok a)
  unfolding with_context
  with_context-eq-ok (ok tenant) call world a e = (tenant, refl, e)
  with_context-eq-ok (err x) call world a e = absurd (ground (arith, e))

  decrypt_data-IsBound :
      (tenant_id other : Text) (plaintext blob : Bytes) (later : World)
      → IsBound boto service.key_id (strip tenant_id) plaintext blob
      → (decrypt_data boto service blob other later).0 ≡ expected tenant_id other plaintext
  unfolding decrypt_data with_context build_encryption_context
  decrypt_data-IsBound tenant_id other plaintext [] later b = absurd (b.some_bytes refl)
  decrypt_data-IsBound tenant_id other plaintext (c ∷ cs) later b =
      elim (Bool-cases (is_empty (strip other))) [
        | inl blank ↦ rw blank refl
        | inr full ↦ rw full (
            rw (b.bound (strip other) later)
              (answered (strip other =ₜ strip tenant_id) _ plaintext))
      ]

  -- For an AWS KMS as documented, and a ciphertext that `encrypt_data` returned for a tenant:
  -- `decrypt_data` gives the plaintext back to that tenant, whatever the blanks around its name, at
  -- any later time; for a tenant of blanks it raises ValueError, and for any other tenant the error
  -- for an invalid ciphertext or context.
  pub decrypt_data-encrypt_data :
      (tenant_id other : Text) (plaintext blob : Bytes) (world later : World)
      → IsKms boto
      → (encrypt_data boto service plaintext tenant_id world).0 ≡ ok blob
      → (decrypt_data boto service blob other later).0 ≡ expected tenant_id other plaintext
  unfolding encrypt_data
  decrypt_data-encrypt_data tenant_id other [] blob world later kms e = absurd (ground (arith, e))
  decrypt_data-encrypt_data tenant_id other (b ∷ bs) blob world later kms e =
      let (tenant, context, called) =
        with_context-eq-ok (build_encryption_context tenant_id) _ world blob e in
      let same = build_encryption_context-eq-ok tenant_id tenant context in
      decrypt_data-IsBound tenant_id other (b ∷ bs) blob later (
        subst (λ t. IsBound boto service.key_id t (b ∷ bs) blob) same
          (kms.encrypts service.key_id tenant (b ∷ bs) blob world
            (bytes_of-eq-ok _ _ _ blob called)))

  -- For an AWS KMS as documented, and a data key that `generate_data_key` returned for a tenant:
  -- `decrypt_data` of the wrapped key gives the key to that tenant, and to no other.
  pub decrypt_data-generate_data_key :
      (tenant_id other : Text) (key blob : Bytes) (world later : World)
      → IsKms boto
      → (generate_data_key boto service tenant_id world).0 ≡ ok (key, blob)
      → (decrypt_data boto service blob other later).0 ≡ expected tenant_id other key
  unfolding generate_data_key
  decrypt_data-generate_data_key tenant_id other key blob world later kms e =
      let (tenant, context, called) =
        with_context-eq-ok (build_encryption_context tenant_id) _ world (key, blob) e in
      let same = build_encryption_context-eq-ok tenant_id tenant context in
      decrypt_data-IsBound tenant_id other key blob later (
        subst (λ t. IsBound boto service.key_id t key blob) same
          (kms.generates service.key_id tenant key blob world (key_pair-eq-ok _ key blob called)))
