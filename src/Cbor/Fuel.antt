-- ===== src/Cbor/Fuel.antt =====
-- enclave/attestation.py: the fuel that `_CBORDecoder.decode` needs in the model, by its bytes.
use confidential_ml_feature.Prelude.{
  ℕ, zero, suc, ◌+◌, ◌*◌, ◌%◌, ◌≤◌, ◌<◌, ◌≢◌, [], ◌∷◌, Bool, true, false, Bytes, arith, length,
  length-drop, ltb, ◌==◌, Bool-cases, Option-cases, inl, inr, Result, ok, err, ◌>>=◌, if◌then◌else◌,
}
use confidential_ml_feature.Python.Utf8
use confidential_ml_feature.Cbor.{Value, Items, Entries, Error, end, out_of_fuel, is_hashable}
use confidential_ml_feature.Cbor.Decoder.{
  Decoder, read, read_int, read_length, read_text, Major, unsigned, negative, byte_string,
  text_string, array, map, tag, simple, other, major_type, decode_simple, decode_item, store_item,
  value, items, entries, finish, decode_all,
}

-- Fuel did not run out, and fewer than `n` bytes are left.
abbrev Within {ℓ} : {A : Type ℓ} → ℕ → Result Error (A × Bytes) → Type 0
Within n (ok x) = length x.1 < n
Within n (err e) = e ≢ out_of_fuel

Within-bind {ℓ κ} :
    {A : Type ℓ} {B : Type κ} (n k : ℕ) (m : Result Error (A × Bytes))
    (f : A × Bytes → Result Error (B × Bytes))
    → Within k m
    → ((x : A × Bytes) → length x.1 < k → Within n (f x))
    → Within n (m >>= f)
Within-bind n k (ok x) f h step = step x h
Within-bind n k (err e) f h step = h

read-Within : (n : ℕ) (bs : Bytes) → Within (suc (length bs)) (read n bs)
unfolding read
read-Within n bs = elim (Bool-cases (ltb (length bs) n)) [
  | inl short ↦ rw short (λ e. cc)
  | inr fits ↦ rw fits (omega (arith, length-drop n bs))
]

read_int-Within : (n : ℕ) (bs : Bytes) → Within (suc (length bs)) (read_int n bs)
unfolding read_int
read_int-Within n bs =
    Within-bind (suc (length bs)) (suc (length bs)) (read n bs) _ (read-Within n bs) (λ x h. h)

if-Within {ℓ} :
    {A : Type ℓ} (n : ℕ) (b : Bool) (x y : Result Error (A × Bytes))
    → Within n x
    → Within n y
    → Within n (if b then x else y)
if-Within n true x y hx hy = hx
if-Within n false x y hx hy = hy

read_length-Within : (info : ℕ) (bs : Bytes) → Within (suc (length bs)) (read_length info bs)
unfolding read_length
read_length-Within info bs = if-Within _ (ltb info 24) _ _ (omega arith) (
    if-Within _ (info == 24) _ _ (read_int-Within 1 bs) (
      if-Within _ (info == 25) _ _ (read_int-Within 2 bs) (
        if-Within _ (info == 26) _ _ (read_int-Within 4 bs)
          (if-Within _ (info == 27) _ _ (read_int-Within 8 bs) (λ e. cc)))))

read_text-Within : (n : ℕ) (bs : Bytes) → Within (suc (length bs)) (read_text n bs)
unfolding read_text
read_text-Within n bs =
    Within-bind (suc (length bs)) (suc (length bs)) (read n bs) _ (read-Within n bs) (λ x h.
      elim (Option-cases (Utf8.decode x.0)) [
        | inl bad ↦ rw bad (λ e. cc)
        | inr (s, good) ↦ rw good h
      ])

decode_simple-Within : (n : ℕ) (bs : Bytes) → Within (suc (length bs)) (decode_simple n bs)
unfolding decode_simple
decode_simple-Within n bs =
    if-Within _ (n == 20) _ _ (omega arith)
      (if-Within _ (n == 21) _ _ (omega arith) (if-Within _ (n == 22) _ _ (omega arith) (λ e. cc)))

store_item-bind :
    (n : ℕ) (k v : Value) (es : Entries) (f : Entries → Result Error (Entries × Bytes))
    → ((ds : Entries) → Within n (f ds))
    → Within n (store_item k v es >>= f)
unfolding store_item
store_item-bind n k v es f h = elim (Bool-cases (is_hashable k)) [
  | inl good ↦ rw good (h _)
  | inr bad ↦ rw bad (λ e. cc)
]

Within-le {ℓ} :
    {A : Type ℓ} (m n : ℕ) (r : Result Error (A × Bytes)) → m ≤ n → Within m r → Within n r
Within-le m n (ok x) le h = omega arith
Within-le m n (err e) le h = h

module _ (again : Decoder Value) (loop : ℕ → Decoder Items)
    (map_loop : ℕ → Entries → Decoder Entries) (size : ℕ)
    (again_within : (bs : Bytes) → length bs ≤ size → Within (suc (length bs)) (again bs))
    (loop_within : (n : ℕ) (bs : Bytes) → length bs ≤ size → Within (suc (length bs)) (loop n bs))
    (map_loop_within : (n : ℕ) (bs : Bytes)
      → length bs ≤ size
      → Within (suc (length bs)) (map_loop n end bs))
    (info : ℕ) (bs : Bytes) (fits : length bs ≤ size) where
  after_length :
      {A : Type 0} (f : ℕ × Bytes → Result Error (A × Bytes))
      → ((n : ℕ) (rest : Bytes)
          → length rest ≤ length bs
          → Within (suc (length rest)) (f (n, rest)))
      → Within (suc (length bs)) (read_length info bs >>= f)
  after_length f h =
      Within-bind (suc (length bs)) (suc (length bs)) (read_length info bs) f
        (read_length-Within info bs)
        (λ x lt.
          Within-le (suc (length x.1)) (suc (length bs)) (f x) (omega arith)
            (h x.0 x.1 (omega arith)))

  decode_item-Within :
      (m : Major) → Within (suc (length bs)) (decode_item again loop map_loop m info bs)
  unfolding decode_item
  decode_item-Within unsigned = after_length _ (λ n rest le. omega arith)
  decode_item-Within negative = after_length _ (λ n rest le. omega arith)
  decode_item-Within byte_string = after_length _ (λ n rest le.
      Within-bind _ (suc (length rest)) (read n rest) _ (read-Within n rest) (λ x lt. lt))
  decode_item-Within text_string = after_length _ (λ n rest le. read_text-Within n rest)
  decode_item-Within array = after_length _ (λ n rest le.
      Within-bind _ (suc (length rest)) (loop n rest) _ (loop_within n rest (omega arith))
        (λ x lt. lt))
  decode_item-Within map = after_length _ (λ n rest le.
      Within-bind _ (suc (length rest)) (map_loop n end rest) _
        (map_loop_within n rest (omega arith)) (λ x lt. lt))
  decode_item-Within tag = after_length _ (λ n rest le. again_within rest (omega arith))
  decode_item-Within simple = decode_simple-Within info bs
  decode_item-Within other = λ e. cc

mutual
  unfolding value

  value-Within : (f : ℕ) (bs : Bytes) → 2 * length bs < f → Within (length bs) (value f bs)
  value-Within zero bs h = absurd (omega arith)
  value-Within (suc f) [] h = λ e. cc
  value-Within (suc f) (b ∷ bs) h =
      decode_item-Within (value f) (items f) (entries f) (length bs)
        (λ cs le.
          Within-le (length cs) (suc (length cs)) (value f cs) (omega arith)
            (value-Within f cs (omega arith)))
        (λ n cs le. items-Within f n cs (omega arith))
        (λ n cs le. entries-Within f n end cs (omega arith)) (b % 32) bs (omega arith)
        (major_type b)

  items-Within :
      (f n : ℕ) (bs : Bytes) → suc (2 * length bs) < f → Within (suc (length bs)) (items f n bs)
  items-Within zero n bs h = absurd (omega arith)
  items-Within (suc f) zero bs h = omega arith
  items-Within (suc f) (suc n) bs h =
      Within-bind _ (length bs) (value f bs) _ (value-Within f bs (omega arith)) (λ x lt.
        Within-bind _ (suc (length x.1)) (items f n x.1) _ (items-Within f n x.1 (omega arith))
          (λ y lt'. omega arith))

  entries-Within :
      (f n : ℕ) (es : Entries) (bs : Bytes)
      → suc (2 * length bs) < f
      → Within (suc (length bs)) (entries f n es bs)
  entries-Within zero n es bs h = absurd (omega arith)
  entries-Within (suc f) zero es bs h = omega arith
  entries-Within (suc f) (suc n) es bs h =
      Within-bind _ (length bs) (value f bs) _ (value-Within f bs (omega arith)) (λ x lt.
        Within-bind _ (length x.1) (value f x.1) _ (value-Within f x.1 (omega arith)) (λ y lt'.
          store_item-bind _ x.0 y.0 es _ (λ ds.
            Within-le (suc (length y.1)) _ (entries f n ds y.1) (omega arith)
              (entries-Within f n ds y.1 (omega arith)))))

finish-ne-out_of_fuel : (v : Value) (bs : Bytes) → finish v bs ≢ err out_of_fuel
unfolding finish
finish-ne-out_of_fuel v [] e = cc
finish-ne-out_of_fuel v (b ∷ bs) e = cc

-- On every input `decode_all` ends with a value or with an exception that the program raises: the
-- fuel never runs out.
pub decode_all-ne-out_of_fuel : (bs : Bytes) → decode_all bs ≢ err out_of_fuel
unfolding decode_all
decode_all-ne-out_of_fuel bs =
    go (value (2 * length bs + 1) bs) (value-Within (2 * length bs + 1) bs (omega arith))
  where
    go :
        (r : Result Error (Value × Bytes))
        → Within (length bs) r
        → (r >>= λ x. finish x.0 x.1) ≢ err out_of_fuel
    go (ok x) h = finish-ne-out_of_fuel x.0 x.1
    go (err e) h = λ q. h (cc)
