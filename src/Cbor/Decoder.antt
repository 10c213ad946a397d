-- ===== src/Cbor/Decoder.antt =====
-- `_CBORDecoder` and `_cbor_decode`. The decoder's state is what is left of the data: the bytes
-- from `_offset` on, so `_offset == len(data)` when nothing is left.
use confidential_ml_feature.Prelude.{
  ℕ, zero, suc, ◌+◌, ◌*◌, ◌/◌, ◌%◌, pos, negsuc, [], ◌∷◌, true, false, none, some, Bytes, length,
  take, drop, ltb, ◌==◌, Result, ok, err, ◌>>=◌, if◌then◌else◌,
}
use confidential_ml_feature.Python.IntBytes.{from_bytes}
use confidential_ml_feature.Python.Utf8
use confidential_ml_feature.Cbor.{
  Value, Items, Entries, Error, bool, null, int, bytes, str, list, dict, nil, cons, end,
  unexpected_end, indefinite_length, unsupported_simple, unsupported_major, trailing_bytes,
  unicode_decode, unhashable, out_of_fuel, is_hashable, set_item,
}

abbrev pub Decoder {ℓ} : Type ℓ → Type ℓ
Decoder A = Bytes → Result Error (A × Bytes)

-- `_read`
unfoldable pub read : ℕ → Decoder Bytes
read n bs = if ltb (length bs) n then err unexpected_end else ok (take n bs, drop n bs)

-- int.from_bytes(self._read(width), "big")
unfoldable pub read_int : ℕ → Decoder ℕ
unfolding read
read_int width bs = do (digits, rest) ← read width bs; ok (from_bytes digits, rest)

-- `_read_length`
unfoldable pub read_length : ℕ → Decoder ℕ
unfolding read_int
read_length info bs =
    if ltb info 24
    then ok (info, bs)
    else if info == 24
    then read_int 1 bs
    else if info == 25
    then read_int 2 bs
    else if info == 26
    then read_int 4 bs
    else if info == 27
    then read_int 8 bs
    else err indefinite_length

-- The major types, one for each branch of `decode`.
pub data Major : Type 0 where
  unsigned negative byte_string text_string array map tag simple other : Major

unfoldable pub major_type : ℕ → Major
major_type initial_byte =
    let m = initial_byte / 32 in
    if m == 0
    then unsigned
    else if m == 1
    then negative
    else if m == 2
    then byte_string
    else if m == 3
    then text_string
    else if m == 4
    then array
    else if m == 5
    then map
    else if m == 6
    then tag
    else if m == 7
    then simple
    else other

unfoldable pub decode_simple : ℕ → Decoder Value
decode_simple info bs =
    if info == 20
    then ok (bool false, bs)
    else if info == 21
    then ok (bool true, bs)
    else if info == 22
    then ok (null, bs)
    else err unsupported_simple

-- self._read(length).decode("utf-8")
unfoldable pub read_text : ℕ → Decoder Value
unfolding read
read_text n bs = do
  (b, rest) ← read n bs
  elim (Utf8.decode b) [ none ↦ err unicode_decode | some s ↦ ok (str s, rest) ]

-- decoded_map[key] = value
unfoldable pub store_item : Value → Value → Entries → Result Error Entries
unfolding set_item
store_item k v es = if is_hashable k then ok (set_item k v es) else err unhashable

-- The branches of `decode`, over the calls that they make: `decode` itself and its two loops.
unfoldable pub decode_item :
    Decoder Value
    → (ℕ → Decoder Items)
    → (ℕ → Entries → Decoder Entries)
    → Major
    → ℕ
    → Decoder Value
decode_item again loop map_loop unsigned info bs = do
  (n, rest) ← read_length info bs
  ok (int (pos n), rest)
decode_item again loop map_loop negative info bs = do
  (n, rest) ← read_length info bs
  ok (int (negsuc n), rest)
decode_item again loop map_loop byte_string info bs = do
  (n, rest) ← read_length info bs
  (s, rest') ← read n rest
  ok (bytes s, rest')
decode_item again loop map_loop text_string info bs = do
  (n, rest) ← read_length info bs
  read_text n rest
decode_item again loop map_loop array info bs = do
  (n, rest) ← read_length info bs
  (xs, rest') ← loop n rest
  ok (list xs, rest')
decode_item again loop map_loop map info bs = do
  (n, rest) ← read_length info bs
  (es, rest') ← map_loop n end rest
  ok (dict es, rest')
decode_item again loop map_loop tag info bs = do (n, rest) ← read_length info bs; again rest
decode_item again loop map_loop simple info bs = decode_simple info bs
decode_item again loop map_loop other info bs = err unsupported_major

-- `decode` and its two loops. What a call leaves of the data is no structural part of it, so each
-- call costs a unit of fuel.
unfoldable mutual
  pub value : ℕ → Decoder Value
  value zero bs = err out_of_fuel
  value (suc f) [] = err unexpected_end
  value (suc f) (b ∷ bs) = decode_item (value f) (items f) (entries f) (major_type b) (b % 32) bs

  pub items : ℕ → ℕ → Decoder Items
  items zero n bs = err out_of_fuel
  items (suc f) zero bs = ok (nil, bs)
  items (suc f) (suc n) bs = do
    (x, rest) ← value f bs
    (xs, rest') ← items f n rest
    ok (cons x xs, rest')

  pub entries : ℕ → ℕ → Entries → Decoder Entries
  entries zero n decoded_map bs = err out_of_fuel
  entries (suc f) zero decoded_map bs = ok (decoded_map, bs)
  entries (suc f) (suc n) decoded_map bs = do
    (k, rest) ← value f bs
    (v, rest') ← value f rest
    decoded_map' ← store_item k v decoded_map
    entries f n decoded_map' rest'

unfoldable pub finish : Value → Bytes → Result Error Value
finish v [] = ok v
finish v (b ∷ bs) = err trailing_bytes

-- `_cbor_decode`
unfoldable pub decode_all : Bytes → Result Error Value
unfolding finish
decode_all bs = do (v, rest) ← value (2 * length bs + 1) bs; finish v rest
