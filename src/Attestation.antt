-- ===== src/Attestation.antt =====
-- enclave/attestation.py: the parsed document, and the parser over decoded CBOR.
pub mod MockNsm
pub mod Device
pub mod Pcrs
pub mod Issued
pub mod RoundTrip
pub mod Verified
use confidential_ml_feature.Prelude.{
  ℤ, pos, ◌=ₜ◌, Bool, true, false, Option, none, some, List, [], ◌∷◌, Text, Bytes, Result, ok, err,
  ◌>>=◌, if◌then◌else◌,
}
use confidential_ml_feature.Python.Codes.{codes}
use confidential_ml_feature.Python.Digits.{str_of_int, hex}
use confidential_ml_feature.OrderedDict
use confidential_ml_feature.Cbor
use confidential_ml_feature.Cbor.{
  Value, Entries, bool, null, int, bytes, str, list, dict, nil, cons, end, entry, key_eq,
}
use confidential_ml_feature.Cbor.Decoder.{decode_all}

-- `AttestationError` with the message of each `raise`, and what the CBOR decoder raises.
pub data Error : Type 0 where
  cbor : Cbor.Error → Error
  not_a_map missing_module_id missing_timestamp missing_digest missing_pcrs : Error
  pcr_index_not_int pcr_value_not_bytes : Error
  bad_public_key bad_user_data bad_nonce : Error

pub record ParsedAttestationDocument : Type 0 where
  pub module_id : Text
  pub timestamp_ms : ℤ
  pub digest : Text
  pub pcrs : List (Text × Text)
  pub public_key : Option Bytes
  pub user_data : Option Bytes
  pub nonce : Option Bytes
  pub is_cose_sign1 : Bool

-- d.get(k)
unfoldable pub get_item : Value → Entries → Option Value
unfolding key_eq
get_item k end = none
get_item k (entry j v es) = if key_eq j k then some v else get_item k es

abbrev pub field : Text → Entries → Option Value
field name es = get_item (str name) es

-- isinstance(_, str)
abbrev expect_str : Option Value → Error → Result Error Text
expect_str (some (str s)) e = ok s
expect_str _ e = err e

-- isinstance(_, int), which a bool is too.
abbrev expect_int : Option Value → Error → Result Error ℤ
expect_int (some (int n)) e = ok n
expect_int (some (bool true)) e = ok (pos 1)
expect_int (some (bool false)) e = ok (pos 0)
expect_int _ e = err e

abbrev expect_dict : Option Value → Error → Result Error Entries
expect_dict (some (dict es)) e = ok es
expect_dict _ e = err e

-- Absent or None, or else bytes.
abbrev expect_optional_bytes : Option Value → Error → Result Error (Option Bytes)
expect_optional_bytes none e = ok none
expect_optional_bytes (some null) e = ok none
expect_optional_bytes (some (bytes b)) e = ok (some b)
expect_optional_bytes _ e = err e

-- str(index), for an index that is an int or a bool.
abbrev index_text : Value → Result Error Text
index_text (int n) = ok (str_of_int n)
index_text (bool true) = ok (codes "True")
index_text (bool false) = ok (codes "False")
index_text _ = err pcr_index_not_int

abbrev pcr_bytes : Value → Result Error Bytes
pcr_bytes (bytes b) = ok b
pcr_bytes _ = err pcr_value_not_bytes

-- The loop over `raw_pcrs.items()`.
unfoldable pub normalize_raw_pcrs : Entries → List (Text × Text) → Result Error (List (Text × Text))
unfolding hex OrderedDict.insert
normalize_raw_pcrs end normalized = ok normalized
normalize_raw_pcrs (entry index value raw) normalized = do
  name ← index_text index
  b ← pcr_bytes value
  normalize_raw_pcrs raw (OrderedDict.insert name (hex b) normalized)

-- `_parse_attestation_document` after the COSE wrapper is gone.
unfoldable pub parse_payload : Value → Bool → Result Error ParsedAttestationDocument
unfolding get_item normalize_raw_pcrs
parse_payload (dict decoded) is_cose = do
  id ← expect_str (field (codes "module_id") decoded) missing_module_id
  stamp ← expect_int (field (codes "timestamp") decoded) missing_timestamp
  algorithm ← expect_str (field (codes "digest") decoded) missing_digest
  raw_pcrs ← expect_dict (field (codes "pcrs") decoded) missing_pcrs
  normalized_pcrs ← normalize_raw_pcrs raw_pcrs []
  key ← expect_optional_bytes (field (codes "public_key") decoded) bad_public_key
  user ← expect_optional_bytes (field (codes "user_data") decoded) bad_user_data
  once ← expect_optional_bytes (field (codes "nonce") decoded) bad_nonce
  ok (record {
    module_id = id;
    timestamp_ms = stamp;
    digest = algorithm;
    pcrs = normalized_pcrs;
    public_key = key;
    user_data = user;
    nonce = once;
    is_cose_sign1 = is_cose;
  })
parse_payload _ is_cose = err not_a_map

-- An error of the CBOR decoder, passed on.
abbrev pub decode_cbor : Bytes → Result Error Value
decode_cbor document = elim (decode_all document) [ ok v ↦ ok v | err e ↦ err (cbor e) ]

-- A list of four whose third item is bytes is taken for a COSE_Sign1 wrapper of those bytes.
unfoldable pub unwrap : Value → Result Error (Value × Bool)
unwrap (list (cons a (cons b (cons (bytes payload) (cons c nil))))) = do
  inner ← decode_cbor payload
  ok (inner, true)
unwrap v = ok (v, false)

-- `_parse_attestation_document`
unfoldable pub parse_attestation_document : Bytes → Result Error ParsedAttestationDocument
parse_attestation_document document = do
  decoded ← decode_cbor document
  (payload, is_cose) ← unwrap decoded
  parse_payload payload is_cose
