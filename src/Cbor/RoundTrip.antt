-- ===== src/Cbor/RoundTrip.antt =====
-- enclave/attestation.py: `_cbor_encode` and `_cbor_decode` together.
use mathlib.Core.Path.{subst}
use confidential_ml_feature.Prelude.{
  ℕ, zero, suc, ◌+◌, ◌*◌, ◌<◌, ◌≤◌, ◌≡◌, refl, pos, negsuc, [], ◌∷◌, ◌++◌, true, false, some, Bytes,
  Text, arith, append_assoc, append-nil, length, length-append, Result, ok, >>=-eq-ok,
}
use confidential_ml_feature.Python.Utf8
use confidential_ml_feature.Cbor.{
  Value, Items, Entries, Error, bool, null, int, bytes, str, list, dict, nil, cons, end, entry,
  count_items, count_entries, join,
}
use confidential_ml_feature.Cbor.Encoder.{
  encode_length, encode_text, encode, encode_items, encode_entries,
}
use confidential_ml_feature.Cbor.Decoder.{
  major_type, decode_simple, decode_item, store_item, value, items, entries, finish, decode_all,
}
use confidential_ml_feature.Cbor.Header.{IsHeader, encode_length-IsHeader}
use confidential_ml_feature.Cbor.Dicts.{
  IsValue, IsItems, IsEntries, join_assoc, join-end, store_item-join,
}
use confidential_ml_feature.Cbor.Steps.{
  value_unsigned, value_negative, value_bytes, value_str, value_list, value_dict,
}

-- With fuel above `bound`, `p` reads `a` off `printed` and leaves what follows.
abbrev Reads {ℓ} : {A : Type ℓ} → (ℕ → Bytes → Result Error (A × Bytes)) → Bytes → ℕ → A → Type ℓ
Reads p printed bound a = (rest : Bytes) (f : ℕ) → bound < f → p f (printed ++ rest) ≡ ok (a, rest)

-- What holds of every successor that exceeds the bound holds of all fuel above it.
fueled {ℓ} :
    {bound : ℕ} (Goal : ℕ → Type ℓ)
    → ((less : ℕ) → bound ≤ less → Goal (suc less))
    → (fuel : ℕ) → bound < fuel
    → Goal fuel
fueled Goal step zero enough = absurd (omega arith)
fueled Goal step (suc less) enough = step less (omega arith)

record Encoded (v : Value) (bs : Bytes) : Type 0 where
  some_byte : 0 < length bs
  reads : Reads value bs (2 * length bs) v

of_header :
    {m n : ℕ} (v : Value) (h b : Bytes)
    → IsHeader m n h
    → ((rest : Bytes) (f : ℕ)
        → suc (2 * length b) < f
        → value (suc f) (h ++ (b ++ rest)) ≡ ok (v, rest))
    → Encoded v (h ++ b)
of_header v h b hd step = record {
  some_byte = omega (arith, size);
  reads = λ rest. fueled _ λ f lt. rw append_assoc (step rest f (omega (arith, size)));
}
  where
    size : length (h ++ b) ≡ suc (length hd.more + length b)
    size = rw hd.split (omega (arith, length-append hd.more b))

header_only :
    {m n : ℕ} (v : Value) (h : Bytes)
    → IsHeader m n h
    → ((rest : Bytes) (f : ℕ) → value (suc f) (h ++ rest) ≡ ok (v, rest))
    → Encoded v h
header_only v h hd step =
    subst (Encoded v) (append-nil h) (of_header v h [] hd (λ rest f lt. step rest f))

literal :
    (v : Value) (b : ℕ) (bs : Bytes)
    → ((rest : Bytes) (f : ℕ) → value (suc f) (b ∷ rest) ≡ ok (v, rest))
    → bs ≡ b ∷ []
    → Encoded v bs
literal v b bs step e =
    rw e (record { some_byte = omega arith; reads = λ rest. fueled _ λ f lt. step rest f })

encode_of_encode_text : (s : Text) (b : Bytes) → encode_text s ≡ ok b → Utf8.encode s ≡ some b
encode_of_encode_text s b e = ground arith

mutual
  unfolding encode IsValue value major_type decode_item decode_simple join store_item

  encode-Encoded : (v : Value) (bs : Bytes) → IsValue v → encode v ≡ ok bs → Encoded v bs
  encode-Encoded (bool true) bs w e = literal (bool true) 0xf5 bs (λ rest f. refl) (cc)
  encode-Encoded (bool false) bs w e = literal (bool false) 0xf4 bs (λ rest f. refl) (cc)
  encode-Encoded null bs w e = literal null 0xf6 bs (λ rest f. refl) (cc)
  encode-Encoded (int (pos n)) bs w e =
      let hd = encode_length-IsHeader 0 n bs e in
      header_only (int (pos n)) bs hd (λ rest f. value_unsigned f n bs hd rest)
  encode-Encoded (int (negsuc n)) bs w e =
      let hd = encode_length-IsHeader 1 n bs e in
      header_only (int (negsuc n)) bs hd (λ rest f. value_negative f n bs hd rest)
  encode-Encoded (bytes b) bs w e =
      let (h, eh, e₁) = >>=-eq-ok (encode_length 2 (length b)) _ e in
      subst (Encoded (bytes b)) (cc) (
        of_header (bytes b) h b (encode_length-IsHeader 2 (length b) h eh) (λ rest f lt.
          value_bytes f (length b) h (encode_length-IsHeader 2 (length b) h eh) b rest refl))
  encode-Encoded (str s) bs w e =
      let (b, eb, e₁) = >>=-eq-ok (encode_text s) _ e in
      let (h, eh, e₂) = >>=-eq-ok (encode_length 3 (length b)) _ e₁ in
      let hd = encode_length-IsHeader 3 (length b) h eh in
      subst (Encoded (str s)) (cc) (
        of_header (str s) h b hd
          (λ rest f lt. value_str f (length b) h hd s b rest refl (encode_of_encode_text s b eb)))
  encode-Encoded (list xs) bs w e =
      let (h, eh, e₁) = >>=-eq-ok (encode_length 4 (count_items xs)) _ e in
      let (b, eb, e₂) = >>=-eq-ok (encode_items xs) _ e₁ in
      let hd = encode_length-IsHeader 4 (count_items xs) h eh in
      let body = encode_items-Reads xs b w eb in
      subst (Encoded (list xs)) (cc) (
        of_header (list xs) h b hd
          (λ rest f lt. value_list f (count_items xs) h hd xs (b ++ rest) rest (body rest f lt)))
  encode-Encoded (dict es) bs w e =
      let (b, eb, e₁) = >>=-eq-ok (encode_entries es) _ e in
      let (h, eh, e₂) = >>=-eq-ok (encode_length 5 (count_entries es)) _ e₁ in
      let hd = encode_length-IsHeader 5 (count_entries es) h eh in
      let body = encode_entries-Reads es end b w eb in
      subst (Encoded (dict es)) (cc) (
        of_header (dict es) h b hd
          (λ rest f lt. value_dict f (count_entries es) h hd es (b ++ rest) rest (body rest f lt)))

  encode_items-Reads :
      (xs : Items) (bs : Bytes)
      → IsItems xs
      → encode_items xs ≡ ok bs
      → Reads (λ f. items f (count_items xs)) bs (suc (2 * length bs)) xs
  encode_items-Reads nil bs w e =
      let split : bs ≡ [] = cc in rw split (λ rest. fueled _ λ f lt. refl)
  encode_items-Reads (cons x xs) bs w e =
      let (b, eb, e₁) = >>=-eq-ok (encode x) _ e in
      let (c, ec, e₂) = >>=-eq-ok (encode_items xs) _ e₁ in
      let split : bs ≡ b ++ c = cc in
      let first = encode-Encoded x b w.0 eb in
      let others = encode_items-Reads xs c w.1 ec in
      rw split λ rest. fueled _ λ f lt.
        let size = length-append b c in
        let some_byte = first.some_byte in
        rw append_assoc
          (rw (first.reads (c ++ rest) f (omega arith)) (rw (others rest f (omega arith)) refl))

  encode_entries-Reads :
      (es before : Entries) (bs : Bytes)
      → IsEntries es before
      → encode_entries es ≡ ok bs
      → Reads (λ f. entries f (count_entries es) before) bs (suc (2 * length bs)) (join before es)
  encode_entries-Reads end before bs w e =
      let split : bs ≡ [] = cc in rw (split, join-end) (λ rest. fueled _ λ f lt. refl)
  encode_entries-Reads (entry k v es) before bs w e =
      let (b, eb, e₁) = >>=-eq-ok (encode k) _ e in
      let (c, ec, e₂) = >>=-eq-ok (encode v) _ e₁ in
      let (d, ed, e₃) = >>=-eq-ok (encode_entries es) _ e₂ in
      let split : bs ≡ b ++ (c ++ d) = cc in
      let key = encode-Encoded k b w.2 eb in
      let val = encode-Encoded v c w.3 ec in
      let others = encode_entries-Reads es (join before (entry k v end)) d w.4 ed in
      rw split λ rest. fueled _ λ f lt.
        let size = length-append b (c ++ d) in
        let size' = length-append c d in
        let some_byte = key.some_byte in
        let some_byte' = val.some_byte in
        rw append_assoc (
          rw (key.reads ((c ++ d) ++ rest) f (omega arith), append_assoc)
            (rw (val.reads (d ++ rest) f (omega arith), store_item-join k v before w.0 w.1)
              (rw (others rest f (omega arith), join_assoc before k v es) refl)))

-- For every value that Python can build, if the encoder succeeds then the decoder gives the value
-- back from the encoder's bytes, with none left over.
pub decode_all-encode :
    (v : Value) (bs : Bytes) → IsValue v → encode v ≡ ok bs → decode_all bs ≡ ok v
unfolding decode_all finish
decode_all-encode v bs w e =
    let whole = (encode-Encoded v bs w e).reads [] (2 * length bs + 1) (omega arith) in
    rw (rw append-nil at whole) refl

-- No two values that Python can build have the same encoding.
pub encode-injective :
    (v w : Value) (bs : Bytes) → IsValue v → IsValue w → encode v ≡ ok bs → encode w ≡ ok bs → v ≡ w
encode-injective v w bs hv hw ev ew =
    cc (decode_all-encode v bs hv ev, decode_all-encode w bs hw ew)
