-- ===== src/Cbor/Encoder.antt =====
-- `_encode_length` and `_cbor_encode`.
use confidential_ml_feature.Prelude.{
  ℕ, ◌+◌, ◌*◌, ◌^◌, pos, negsuc, [], ◌∷◌, ◌++◌, true, false, none, some, Text, Bytes, length, ltb,
  Result, ok, err, ◌>>=◌, if◌then◌else◌,
}
use confidential_ml_feature.Python.IntBytes.{to_bytes}
use confidential_ml_feature.Python.Utf8
use confidential_ml_feature.Cbor.{
  Value, Items, Entries, Error, bool, null, int, bytes, str, list, dict, nil, cons, end, entry,
  unicode_encode, overflow, count_items, count_entries,
}

-- The initial byte and the bytes of the length; a number that 8 bytes do not hold is Python's
-- OverflowError.
unfoldable pub encode_length : ℕ → ℕ → Result Error Bytes
unfolding to_bytes
encode_length major_type value =
    if ltb value 24
    then ok ((major_type * 32 + value) ∷ [])
    else if ltb value (2 ^ 8)
    then ok ((major_type * 32 + 24) ∷ value ∷ [])
    else if ltb value (2 ^ 16)
    then ok ((major_type * 32 + 25) ∷ to_bytes 2 value)
    else if ltb value (2 ^ 32)
    then ok ((major_type * 32 + 26) ∷ to_bytes 4 value)
    else if ltb value (2 ^ 64)
    then ok ((major_type * 32 + 27) ∷ to_bytes 8 value)
    else err overflow

-- s.encode("utf-8")
abbrev pub encode_text : Text → Result Error Bytes
encode_text s = elim (Utf8.encode s) [ none ↦ err unicode_encode | some e ↦ ok e ]

unfoldable mutual
  pub encode : Value → Result Error Bytes
  encode (bool true) = ok (0xf5 ∷ [])
  encode (bool false) = ok (0xf4 ∷ [])
  encode null = ok (0xf6 ∷ [])
  encode (int (pos n)) = encode_length 0 n
  encode (int (negsuc n)) = encode_length 1 n
  encode (bytes b) = do h ← encode_length 2 (length b); ok (h ++ b)
  encode (str s) = do e ← encode_text s; h ← encode_length 3 (length e); ok (h ++ e)
  encode (list xs) = do h ← encode_length 4 (count_items xs); body ← encode_items xs; ok (h ++ body)
  encode (dict es) = do
    body ← encode_entries es
    h ← encode_length 5 (count_entries es)
    ok (h ++ body)

  pub encode_items : Items → Result Error Bytes
  encode_items nil = ok []
  encode_items (cons x xs) = do b ← encode x; bs ← encode_items xs; ok (b ++ bs)

  pub encode_entries : Entries → Result Error Bytes
  encode_entries end = ok []
  encode_entries (entry k v es) = do
    key ← encode k
    val ← encode v
    bs ← encode_entries es
    ok (key ++ (val ++ bs))
