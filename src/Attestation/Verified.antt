-- ===== src/Attestation/Verified.antt =====
-- `ParsedAttestationDocument.as_dict` and `verify_attestation_document` of enclave/attestation.py.
-- Base64 and Python's datetime are parameters.
use confidential_ml_feature.Prelude.{
  ℤ, ◌≡◌, refl, Option, none, some, List, [], ◌∷◌, Text, Bytes, Result, ok, err,
}
use confidential_ml_feature.Python.Codes.{codes}
use confidential_ml_feature.Python.Json.{Json, Fields, null, bool, int, str, obj, end, field}
use confidential_ml_feature.Attestation.{
  ParsedAttestationDocument, Error, parse_attestation_document,
}
use confidential_ml_feature.Attestation.MockNsm.{MockNsm, get_attestation_document}
use confidential_ml_feature.Attestation.Pcrs.{Readers, RawIndex, RawValue, make_nsm}
use confidential_ml_feature.Attestation.RoundTrip.{parsed}
use confidential_ml_feature.Attestation.Issued.{parse-make_nsm}

-- What is raised: an `AttestationError`, or an exception of `datetime.fromtimestamp`.
pub data Raised : Type 0 where
  attestation : Error → Raised
  time_out_of_range : Raised

-- `datetime.fromtimestamp(ms / 1000, tz=UTC).isoformat()`, with `none` for an exception, and
-- `base64.b64encode(_).decode("ascii")`.
pub record Formats : Type 0 where
  pub isoformat : ℤ → Option Text
  pub b64encode : Bytes → Text

unfoldable pub pcr_fields : List (Text × Text) → Fields
pcr_fields [] = end
pcr_fields ((index, value) ∷ pcrs) = field index (str value) (pcr_fields pcrs)

module _ (formats : Formats) where
  abbrev pub b64_or_none : Option Bytes → Json
  b64_or_none none = null
  b64_or_none (some b) = str (formats.b64encode b)

  unfoldable pub as_dict : ParsedAttestationDocument → Result Raised Fields
  unfolding pcr_fields
  as_dict d = elim (formats.isoformat d.timestamp_ms) [
    | none ↦ err time_out_of_range
    | some timestamp ↦ ok (
        field (codes "module_id") (str d.module_id) (
          field (codes "timestamp_ms") (int d.timestamp_ms) (
            field (codes "timestamp") (str timestamp) (
              field (codes "digest") (str d.digest) (
                field (codes "pcrs") (obj (pcr_fields d.pcrs)) (
                  field (codes "public_key") (b64_or_none d.public_key) (
                    field (codes "user_data") (b64_or_none d.user_data) (
                      field (codes "nonce") (b64_or_none d.nonce)
                        (field (codes "is_cose_sign1") (bool d.is_cose_sign1) end)))))))))
  ]

  unfoldable pub verify_attestation_document : Bytes → Result Raised Fields
  unfolding as_dict
  verify_attestation_document document = elim (parse_attestation_document document) [
    | ok d ↦ as_dict d
    | err e ↦ err (attestation e)
  ]

  -- A document of a mock NSM is verified to the dict of its own fields, or raises where Python has no
  -- time for its timestamp.
  verify-make_nsm :
      (readers : Readers) (pcrs : Option (List (RawIndex × RawValue))) (module_id : Text)
      (timestamp_ms : Option ℤ) (digest : Text) (certificate : Option Bytes)
      (cabundle : Option (List Bytes)) (nsm : MockNsm) (now_ms : ℤ)
      (public_key user_data nonce : Option Bytes) (document : Bytes)
      → make_nsm readers pcrs module_id timestamp_ms digest certificate cabundle ≡ ok nsm
      → get_attestation_document nsm now_ms public_key user_data nonce ≡ ok document
      → verify_attestation_document document
        ≡ as_dict (parsed nsm now_ms public_key user_data nonce)
  unfolding verify_attestation_document
  verify-make_nsm readers pcrs module_id timestamp_ms digest certificate cabundle nsm now_ms
        public_key user_data nonce document made issued =
      let found =
        parse-make_nsm readers pcrs module_id timestamp_ms digest certificate cabundle nsm now_ms
          public_key user_data nonce document made issued in
      rw (found, verify_attestation_document) refl
