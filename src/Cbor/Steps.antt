-- ===== src/Cbor/Steps.antt =====
-- One step of the decoder on the head of each kind of item.
use confidential_ml_feature.Prelude.{
  ℕ, suc, ◌/◌, ◌≡◌, refl, pos, negsuc, ◌++◌, some, Bytes, Text, arith, length, ok,
}
use confidential_ml_feature.Python.Utf8
use confidential_ml_feature.Python.Utf8.RoundTrip.{decode-encode}
use confidential_ml_feature.Cbor.{Items, Entries, int, bytes, str, list, dict, end}
use confidential_ml_feature.Cbor.Decoder.{
  read_text, Major, unsigned, negative, byte_string, text_string, array, map, major_type,
  decode_item, value, items, entries,
}
use confidential_ml_feature.Cbor.Header.{IsHeader, read-append}

major_of :
    {m n : ℕ} {h : Bytes} (hd : IsHeader m n h) (k : Major)
    → ((b : ℕ) → b / 32 ≡ m → major_type b ≡ k)
    → major_type hd.initial ≡ k
major_of hd k known = known hd.initial hd.major_bits

read_text-append :
    (s : Text) (b rest : Bytes)
    → Utf8.encode s ≡ some b
    → read_text (length b) (b ++ rest) ≡ ok (str s, rest)
unfolding read_text
read_text-append s b rest e = rw (read-append b rest) (ground (arith, decode-encode s b e))

module _ (f n : ℕ) (h : Bytes) where
  pub value_unsigned :
      IsHeader 0 n h → (rest : Bytes) → value (suc f) (h ++ rest) ≡ ok (int (pos n), rest)
  unfolding value decode_item major_type
  value_unsigned hd rest =
      rw hd.split (rw (major_of hd unsigned (λ b e. ground arith), value) (rw (hd.reads rest) refl))

  pub value_negative :
      IsHeader 1 n h → (rest : Bytes) → value (suc f) (h ++ rest) ≡ ok (int (negsuc n), rest)
  unfolding value decode_item major_type
  value_negative hd rest =
      rw hd.split (rw (major_of hd negative (λ b e. ground arith), value) (rw (hd.reads rest) refl))

  pub value_bytes :
      IsHeader 2 n h
      → (b rest : Bytes) → length b ≡ n
      → value (suc f) (h ++ (b ++ rest)) ≡ ok (bytes b, rest)
  unfolding value decode_item major_type
  value_bytes hd b rest l = rw hd.split (
      rw (major_of hd byte_string (λ b e. ground arith), value)
        (rw (hd.reads (b ++ rest), ← l, read-append b rest) refl))

  pub value_str :
      IsHeader 3 n h
      → (s : Text) (b rest : Bytes) → length b ≡ n
      → Utf8.encode s ≡ some b
      → value (suc f) (h ++ (b ++ rest)) ≡ ok (str s, rest)
  unfolding value decode_item major_type
  value_str hd s b rest l e = rw hd.split (
      rw (major_of hd text_string (λ b e. ground arith), value)
        (rw (hd.reads (b ++ rest), ← l) (read_text-append s b rest e)))

  pub value_list :
      IsHeader 4 n h
      → (xs : Items) (b rest : Bytes) → items f n b ≡ ok (xs, rest)
      → value (suc f) (h ++ b) ≡ ok (list xs, rest)
  unfolding value decode_item major_type
  value_list hd xs b rest e =
      rw hd.split (rw (major_of hd array (λ b e. ground arith), value) (rw (hd.reads b, e) refl))

  pub value_dict :
      IsHeader 5 n h
      → (es : Entries) (b rest : Bytes) → entries f n end b ≡ ok (es, rest)
      → value (suc f) (h ++ b) ≡ ok (dict es, rest)
  unfolding value decode_item major_type
  value_dict hd es b rest e =
      rw hd.split (rw (major_of hd map (λ b e. ground arith), value) (rw (hd.reads b, e) refl))
