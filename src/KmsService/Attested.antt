-- ===== src/KmsService/Attested.antt =====
-- The request that the host's `KMSService` prepares against the one that the enclave's
-- `EnclaveKMSClient` sends.
use confidential_ml_feature.Prelude.{
  ◌≡◌, refl, inl, inr, [], ◌∷◌, if◌then◌else◌, Bool-cases, Text, Bytes, ok, err, ◌>>=◌,
}
use confidential_ml_feature.Python.Strip.{strip, is_empty}
use confidential_ml_feature.KmsClient.{Client, build_request}
use confidential_ml_feature.KmsService.{
  Service, empty_ciphertext, empty_tenant_id, empty_document, prepare_attested_decrypt_request,
  build_encryption_context, build_attested_recipient,
}

-- For a service with the key of the enclave's client: the request that it prepares is the one that
-- the client sends for the tenant without the blanks around it, if there is a ciphertext, such a
-- tenant and a document; otherwise it raises for the first of these that is missing.
pub prepare_attested_decrypt_request-build_request :
    (service : Service) (client : Client) (ciphertext : Bytes) (tenant_id : Text) (document : Bytes)
    → service.key_id ≡ client.key_id
    → prepare_attested_decrypt_request service ciphertext tenant_id document ≡ (
        if is_empty ciphertext
        then err empty_ciphertext
        else if is_empty (strip tenant_id)
        then err empty_tenant_id
        else if is_empty document
        then err empty_document
        else ok (build_request client ciphertext (strip tenant_id) document))
unfolding prepare_attested_decrypt_request build_encryption_context build_attested_recipient
    build_request
prepare_attested_decrypt_request-build_request service client [] tenant_id document e = refl
prepare_attested_decrypt_request-build_request service client (b ∷ bs) tenant_id document e =
    elim (Bool-cases (is_empty (strip tenant_id))) [
      | inl blank ↦ rw blank refl
      | inr full ↦ rw full (go document)
    ]
  where
    go :
        (d : Bytes)
        → (do
          recipient ← build_attested_recipient d
          ok (record {
            key_id = service.key_id;
            ciphertext_blob = b ∷ bs;
            tenant_id = strip tenant_id;
            key_encryption_algorithm = recipient.0;
            attestation_document = recipient.1;
          }))
          ≡ (if is_empty d
              then err empty_document
              else ok (build_request client (b ∷ bs) (strip tenant_id) d))
    go [] = refl
    go (c ∷ cs) = rw e refl
