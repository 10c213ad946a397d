-- ===== src/Attestation/MockNsm.antt =====
-- `MockNSM`: the documents that the local development mode hands out.
use confidential_ml_feature.Prelude.{
  zero, ℤ, pos, Option, none, some, List, [], ◌∷◌, Text, Bytes, Result, ◌>>=◌,
}
use confidential_ml_feature.Python.Codes.{codes}
use confidential_ml_feature.Cbor
use confidential_ml_feature.Cbor.{
  Value, Items, Entries, int, bytes, str, list, dict, nil, cons, end, entry, set_item,
}
use confidential_ml_feature.Cbor.Encoder.{encode}

-- The fields of a `MockNSM`, with the PCRs as `_normalize_pcrs` leaves them.
pub record MockNsm : Type 0 where
  pub pcrs : List (ℤ × Bytes)
  pub module_id : Text
  pub timestamp_ms : Option ℤ
  pub digest : Text
  pub certificate : Bytes
  pub cabundle : List Bytes

-- self._timestamp_ms or int(now * 1000)
abbrev pub timestamp : Option ℤ → ℤ → ℤ
timestamp none now_ms = now_ms
timestamp (some (pos zero)) now_ms = now_ms
timestamp (some t) now_ms = t

unfoldable pub pcr_entries : List (ℤ × Bytes) → Entries
pcr_entries [] = end
pcr_entries ((index, value) ∷ pcrs) = entry (int index) (bytes value) (pcr_entries pcrs)

unfoldable pub bytes_items : List Bytes → Items
bytes_items [] = nil
bytes_items (b ∷ bs) = cons (bytes b) (bytes_items bs)

-- if b is not None: payload[name] = b
unfoldable pub set_optional : Text → Option Bytes → Entries → Entries
unfolding set_item
set_optional name none payload = payload
set_optional name (some b) payload = set_item (str name) (bytes b) payload

-- The COSE_Sign1-like wrapper [b"", {}, payload_bytes, b"mock-signature"].
unfoldable pub cose_sign1 : Bytes → Value
cose_sign1 payload_bytes = list (
    cons (bytes [])
      (cons (dict end) (cons (bytes payload_bytes) (cons (bytes (codes "mock-signature")) nil))))

module _ (nsm : MockNsm) (now_ms : ℤ) (public_key user_data nonce : Option Bytes) where
  unfoldable pub payload : Entries
  unfolding set_optional pcr_entries bytes_items
  payload = set_optional (codes "nonce") nonce (
      set_optional (codes "user_data") user_data (
        set_optional (codes "public_key") public_key (
          entry (str (codes "module_id")) (str nsm.module_id) (
            entry (str (codes "timestamp")) (int (timestamp nsm.timestamp_ms now_ms)) (
              entry (str (codes "digest")) (str nsm.digest) (
                entry (str (codes "pcrs")) (dict (pcr_entries nsm.pcrs)) (
                  entry (str (codes "certificate")) (bytes nsm.certificate)
                    (entry (str (codes "cabundle")) (list (bytes_items nsm.cabundle)) end))))))))

  -- `get_attestation_document`
  unfoldable pub get_attestation_document : Result Cbor.Error Bytes
  unfolding payload cose_sign1
  get_attestation_document = do
    payload_bytes ← encode (dict payload)
    encode (cose_sign1 payload_bytes)
