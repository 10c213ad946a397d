-- ===== src/Attestation/RoundTrip.antt =====
-- enclave/attestation.py: `MockNSM.get_attestation_document` and `_parse_attestation_document`
-- together.
use confidential_ml_feature.Prelude.{
  ℤ, ◌≡◌, ◌∙◌, refl, Bool, true, Option, none, some, List, [], ◌∷◌, Text, Bytes, arith, ◌=ₜ◌, ok,
  >>=-eq-ok,
}
use confidential_ml_feature.Python.Digits.{str_of_int, hex}
use confidential_ml_feature.OrderedDict
use confidential_ml_feature.Cbor.{Value, dict, has_key, join, set_item}
use confidential_ml_feature.Cbor.Encoder.{encode}
use confidential_ml_feature.Cbor.Decoder.{decode_all}
use confidential_ml_feature.Cbor.Dicts.{IsValue, IsItems}
use confidential_ml_feature.Cbor.RoundTrip.{decode_all-encode}
use confidential_ml_feature.Attestation.{
  ParsedAttestationDocument, normalize_raw_pcrs, parse_payload, unwrap, parse_attestation_document,
}
use confidential_ml_feature.Attestation.MockNsm.{
  MockNsm, timestamp, pcr_entries, bytes_items, payload, cose_sign1, get_attestation_document,
}

-- The PCR dict of a parsed document: the indexes in decimal, the values in hexadecimal.
unfoldable pub hex_pcrs : List (ℤ × Bytes) → List (Text × Text) → List (Text × Text)
hex_pcrs [] normalized = normalized
hex_pcrs ((index, value) ∷ pcrs) normalized =
    hex_pcrs pcrs (OrderedDict.insert (str_of_int index) (hex value) normalized)

normalize_raw_pcrs-pcr_entries :
    (pcrs : List (ℤ × Bytes)) (normalized : List (Text × Text))
    → normalize_raw_pcrs (pcr_entries pcrs) normalized ≡ ok (hex_pcrs pcrs normalized)
unfolding normalize_raw_pcrs pcr_entries hex_pcrs
normalize_raw_pcrs-pcr_entries [] normalized = refl
normalize_raw_pcrs-pcr_entries ((index, value) ∷ pcrs) normalized =
    normalize_raw_pcrs-pcr_entries pcrs
      (OrderedDict.insert (str_of_int index) (hex value) normalized)

bytes_items-IsItems : (bs : List Bytes) → IsItems (bytes_items bs)
unfolding bytes_items IsValue
bytes_items-IsItems [] = tt
bytes_items-IsItems (b ∷ bs) = (tt, bytes_items-IsItems bs)

cose_sign1-IsValue : (inner : Bytes) → IsValue (cose_sign1 inner)
unfolding IsValue cose_sign1
cose_sign1-IsValue inner = (tt, (tt, (tt, (tt, tt))))

unwrap-cose_sign1 :
    (inner : Bytes) (v : Value) → decode_all inner ≡ ok v → unwrap (cose_sign1 inner) ≡ ok (v, true)
unfolding unwrap cose_sign1
unwrap-cose_sign1 inner v e = ground arith

parse_of_decode :
    (document : Bytes) (d payload : Value) (is_cose : Bool)
    → decode_all document ≡ ok d
    → unwrap d ≡ ok (payload, is_cose)
    → parse_attestation_document document ≡ parse_payload payload is_cose
unfolding parse_attestation_document
parse_of_decode document d payload is_cose ed eu = ground arith

module _ (nsm : MockNsm) (now_ms : ℤ) where
  -- What the parser should find in a document of `nsm`.
  abbrev pub parsed : Option Bytes → Option Bytes → Option Bytes → ParsedAttestationDocument
  parsed public_key user_data nonce = record {
    module_id = nsm.module_id;
    timestamp_ms = timestamp nsm.timestamp_ms now_ms;
    digest = nsm.digest;
    pcrs = hex_pcrs nsm.pcrs [];
    public_key = public_key;
    user_data = user_data;
    nonce = nonce;
    is_cose_sign1 = true;
  }

  payload-IsValue :
      (public_key user_data nonce : Option Bytes)
      → IsValue (dict (pcr_entries nsm.pcrs))
      → IsValue (dict (payload nsm now_ms public_key user_data nonce))
  unfolding payload IsValue has_key join set_item ◌=ₜ◌
  payload-IsValue none none none w = let items = bytes_items-IsItems nsm.cabundle in ground arith
  payload-IsValue _ _ _ w = let items = bytes_items-IsItems nsm.cabundle in ground arith

  parse_payload-payload :
      (public_key user_data nonce : Option Bytes)
      → parse_payload (dict (payload nsm now_ms public_key user_data nonce)) true
        ≡ ok (parsed public_key user_data nonce)
  unfolding payload parse_payload set_item ◌=ₜ◌
  parse_payload-payload none none none = rw normalize_raw_pcrs-pcr_entries refl
  parse_payload-payload none none (some c) = rw normalize_raw_pcrs-pcr_entries refl
  parse_payload-payload none (some b) none = rw normalize_raw_pcrs-pcr_entries refl
  parse_payload-payload none (some b) (some c) = rw normalize_raw_pcrs-pcr_entries refl
  parse_payload-payload (some a) none none = rw normalize_raw_pcrs-pcr_entries refl
  parse_payload-payload (some a) none (some c) = rw normalize_raw_pcrs-pcr_entries refl
  parse_payload-payload (some a) (some b) none = rw normalize_raw_pcrs-pcr_entries refl
  parse_payload-payload (some a) (some b) (some c) = rw normalize_raw_pcrs-pcr_entries refl

  -- For every mock NSM whose PCRs form a dict, each optional field given or not: if the document can
  -- be encoded, then the parser finds in it exactly the NSM's fields and the given ones, and that it
  -- is a COSE_Sign1 wrapper.
  pub parse-get_attestation_document :
      (public_key user_data nonce : Option Bytes) (document : Bytes)
      → IsValue (dict (pcr_entries nsm.pcrs))
      → get_attestation_document nsm now_ms public_key user_data nonce ≡ ok document
      → parse_attestation_document document ≡ ok (parsed public_key user_data nonce)
  unfolding get_attestation_document
  parse-get_attestation_document public_key user_data nonce document w e =
      let body = dict (payload nsm now_ms public_key user_data nonce) in
      let (inner, ei, eo) = >>=-eq-ok (encode body) _ e in
      let decoded_inner =
        decode_all-encode body inner (payload-IsValue public_key user_data nonce w) ei in
      let decoded_outer =
        decode_all-encode (cose_sign1 inner) document (cose_sign1-IsValue inner) eo in
      parse_of_decode document (cose_sign1 inner) body true decoded_outer
        (unwrap-cose_sign1 inner body decoded_inner)
      ∙ parse_payload-payload public_key user_data nonce
