-- ===== src/Tests/Documents.antt =====
-- A CBOR value, and a document of a mock NSM with one PCR.
use confidential_ml_feature.Prelude.{
  pos, negsuc, ◌≡◌, ◌≢◌, refl, [], ◌∷◌, none, some, true, Bytes, ok, err, ◌=ₜ◌,
}
use confidential_ml_feature.Python.Codes.{codes}
use confidential_ml_feature.Python.Utf8
use confidential_ml_feature.Python.IntBytes.{to_bytes}
use confidential_ml_feature.Cbor.{
  out_of_fuel, Value, bool, null, int, str, list, dict, nil, cons, end, entry, has_key, join,
  set_item,
}
use confidential_ml_feature.Cbor.Encoder.{encode, encode_length}
use confidential_ml_feature.Cbor.Decoder.{decode_all}
use confidential_ml_feature.Cbor.Dicts.{IsValue}
use confidential_ml_feature.Cbor.RoundTrip.{decode_all-encode}
use confidential_ml_feature.Cbor.Fuel.{decode_all-ne-out_of_fuel}
use confidential_ml_feature.Attestation.{parse_attestation_document}
use confidential_ml_feature.Attestation.MockNsm.{
  MockNsm, pcr_entries, bytes_items, payload, cose_sign1, get_attestation_document,
}
use confidential_ml_feature.Attestation.RoundTrip.{parsed}
use confidential_ml_feature.Attestation.Issued.{parse-make_nsm}
use confidential_ml_feature.Attestation.Pcrs.{
  Readers, number, raw, make_nsm, normalize_pcrs, read_index, read_value, set_pcr,
}

-- {"a": [-500, None], 2: True}
abbrev sample : Value
sample = dict (
    entry (str (codes "a")) (list (cons (int (negsuc 499)) (cons null nil)))
      (entry (int (pos 2)) (bool true) end))

abbrev sample_bytes : Bytes
sample_bytes = 162 ∷ 97 ∷ 97 ∷ 130 ∷ 57 ∷ 1 ∷ 243 ∷ 246 ∷ 2 ∷ 245 ∷ []

sample-IsValue : IsValue sample
unfolding IsValue has_key join ◌=ₜ◌
sample-IsValue = (refl, refl, tt, (tt, (tt, tt)), (refl, refl, tt, tt, tt))

sample_encoded : encode sample ≡ ok sample_bytes
unfolding encode encode_length to_bytes Utf8.encode
sample_encoded = refl

decode_all-encode_example : decode_all sample_bytes ≡ ok sample
decode_all-encode_example = decode_all-encode sample sample_bytes sample-IsValue sample_encoded

decode_all-ne-out_of_fuel_example : decode_all (162 ∷ 97 ∷ []) ≢ err out_of_fuel
decode_all-ne-out_of_fuel_example = decode_all-ne-out_of_fuel (162 ∷ 97 ∷ [])

abbrev sample_pcr : Bytes
sample_pcr =
    1 ∷ 2 ∷ 3 ∷ 4 ∷ 5 ∷ 6 ∷ 7 ∷ 8 ∷ 9 ∷ 10 ∷ 11 ∷ 12 ∷ 13 ∷ 14 ∷ 15 ∷ 16 ∷ 17 ∷ 18 ∷ 19 ∷ 20 ∷ 21
    ∷ 22 ∷ 23 ∷ 24 ∷ 25 ∷ 26 ∷ 27 ∷ 28 ∷ 29 ∷ 30 ∷ 31 ∷ 32 ∷ []

abbrev nsm : MockNsm
nsm = record {
  pcrs = (pos 0, sample_pcr) ∷ [];
  module_id = codes "m";
  timestamp_ms = some (pos 5);
  digest = codes "SHA384";
  certificate = 1 ∷ [];
  cabundle = (2 ∷ []) ∷ [];
}

abbrev document : Bytes
document =
    132 ∷ 64 ∷ 160 ∷ 88 ∷ 117 ∷ 167 ∷ 105 ∷ 109 ∷ 111 ∷ 100 ∷ 117 ∷ 108 ∷ 101 ∷ 95 ∷ 105 ∷ 100 ∷ 97
    ∷ 109 ∷ 105 ∷ 116 ∷ 105 ∷ 109 ∷ 101 ∷ 115 ∷ 116 ∷ 97 ∷ 109 ∷ 112 ∷ 5 ∷ 102 ∷ 100 ∷ 105 ∷ 103
    ∷ 101 ∷ 115 ∷ 116 ∷ 102 ∷ 83 ∷ 72 ∷ 65 ∷ 51 ∷ 56 ∷ 52 ∷ 100 ∷ 112 ∷ 99 ∷ 114 ∷ 115 ∷ 161 ∷ 0
    ∷ 88 ∷ 32 ∷ 1 ∷ 2 ∷ 3 ∷ 4 ∷ 5 ∷ 6 ∷ 7 ∷ 8 ∷ 9 ∷ 10 ∷ 11 ∷ 12 ∷ 13 ∷ 14 ∷ 15 ∷ 16 ∷ 17 ∷ 18 ∷ 19
    ∷ 20 ∷ 21 ∷ 22 ∷ 23 ∷ 24 ∷ 25 ∷ 26 ∷ 27 ∷ 28 ∷ 29 ∷ 30 ∷ 31 ∷ 32 ∷ 107 ∷ 99 ∷ 101 ∷ 114 ∷ 116
    ∷ 105 ∷ 102 ∷ 105 ∷ 99 ∷ 97 ∷ 116 ∷ 101 ∷ 65 ∷ 1 ∷ 104 ∷ 99 ∷ 97 ∷ 98 ∷ 117 ∷ 110 ∷ 100 ∷ 108
    ∷ 101 ∷ 129 ∷ 65 ∷ 2 ∷ 105 ∷ 117 ∷ 115 ∷ 101 ∷ 114 ∷ 95 ∷ 100 ∷ 97 ∷ 116 ∷ 97 ∷ 65 ∷ 3 ∷ 78
    ∷ 109 ∷ 111 ∷ 99 ∷ 107 ∷ 45 ∷ 115 ∷ 105 ∷ 103 ∷ 110 ∷ 97 ∷ 116 ∷ 117 ∷ 114 ∷ 101 ∷ []

issued : get_attestation_document nsm (pos 9) none (some (3 ∷ [])) none ≡ ok document
unfolding get_attestation_document payload set_item ◌=ₜ◌ encode encode_length to_bytes Utf8.encode
    bytes_items pcr_entries cose_sign1
issued = refl

abbrev readers : Readers
readers = record { int_of = λ s. none; fromhex = λ s. none; default_pcr0 = [] }

made :
    make_nsm readers
      (some ((number (pos 0), raw sample_pcr) ∷ []))
      (codes "m")
      (some (pos 5))
      (codes "SHA384")
      (some (1 ∷ []))
      (some ((2 ∷ []) ∷ []))
    ≡ ok nsm
unfolding make_nsm normalize_pcrs read_index read_value set_pcr
made = refl

parse-make_nsm_example :
    parse_attestation_document document ≡ ok (parsed nsm (pos 9) none (some (3 ∷ [])) none)
parse-make_nsm_example =
    parse-make_nsm readers (some ((number (pos 0), raw sample_pcr) ∷ [])) (codes "m") (some (pos 5))
      (codes "SHA384") (some (1 ∷ [])) (some ((2 ∷ []) ∷ [])) nsm (pos 9) none (some (3 ∷ [])) none
      document made issued
