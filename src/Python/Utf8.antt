-- ===== src/Python/Utf8.antt =====
-- str.encode("utf-8") and bytes.decode("utf-8"), strict.
pub mod RoundTrip
pub mod Parts
use mathlib.Core.Path.{subst}
use confidential_ml_feature.Prelude.{
  ℕ, zero, suc, ◌≤◌, ◌<◌, ◌+◌, ◌-◌, ◌*◌, ◌/◌, ◌%◌, ◌≢◌, ◌≡◌, refl, [], ◌∷◌, ◌++◌, Bool, false, ◌&&◌,
  ◌||◌, Option, none, some, Text, Bytes, leb, ltb, arith, if◌then◌else◌, if-elim, All, All-append,
  append_assoc, ◌∙◌, sym, Bool-cases, inl, inr,
}

-- The bytes of one code point; `none` for a surrogate, which UTF-8 does not encode.
encode_char : ℕ → Option Bytes
encode_char c =
    if ltb c 0x80
    then some (c ∷ [])
    else if ltb c 0x800
    then some ((0xC0 + c / 64) ∷ (0x80 + c % 64) ∷ [])
    else if leb 0xD800 c && ltb c 0xE000
    then none
    else if ltb c 0x10000
    then some ((0xE0 + c / 4096) ∷ (0x80 + c / 64 % 64) ∷ (0x80 + c % 64) ∷ [])
    else if ltb c 0x110000
    then some
        ((0xF0 + c / 262144) ∷ (0x80 + c / 4096 % 64) ∷ (0x80 + c / 64 % 64) ∷ (0x80 + c % 64) ∷ [])
    else none

unfoldable pub encode : Text → Option Bytes
unfolding encode_char
encode [] = some []
encode (c ∷ s) = elim (encode_char c) [
  | none ↦ none
  | some b ↦ elim (encode s) [ none ↦ none | some bs ↦ some (b ++ bs) ]
]

-- The byte at a place, and 0, which is no continuation byte, past the end.
abbrev byte_at : Bytes → ℕ → ℕ
byte_at [] i = 0
byte_at (b ∷ bs) zero = b
byte_at (b ∷ bs) (suc i) = byte_at bs i

is_continuation : ℕ → Bool
is_continuation b = leb 0x80 b && ltb b 0xC0

-- The code point that starts with byte `a` before `bs`, and how many bytes of `bs` belong to it.
read_char : ℕ → Bytes → Option (ℕ × ℕ)
unfolding is_continuation
read_char a bs =
    let b = byte_at bs 0 in
    let c = byte_at bs 1 in
    let d = byte_at bs 2 in
    let two = (a - 0xC0) * 64 + (b - 0x80) in
    let three = (a - 0xE0) * 4096 + (b - 0x80) * 64 + (c - 0x80) in
    let four = (a - 0xF0) * 262144 + (b - 0x80) * 4096 + (c - 0x80) * 64 + (d - 0x80) in
    if ltb a 0x80
    then some (a, 0)
    else if ltb a 0xC2
    then none
    else if ltb a 0xE0
    then if is_continuation b then some (two, 1) else none
    else if ltb a 0xF0
    then if is_continuation b
        && is_continuation c
        && leb 0x800 three
        && (ltb three 0xD800 || leb 0xE000 three)
      then some (three, 2)
      else none
    else if ltb a 0xF5
    then if is_continuation b
        && is_continuation c
        && is_continuation d
        && leb 0x10000 four
        && ltb four 0x110000
      then some (four, 3)
      else none
    else none

-- `skip` counts the bytes still to pass over: the rest of a code point that was read.
decode_from : ℕ → Bytes → Option Text
unfolding read_char
decode_from skip [] = some []
decode_from (suc skip) (b ∷ bs) = decode_from skip bs
decode_from zero (a ∷ bs) = elim (read_char a bs) [
  | none ↦ none
  | some (c, k) ↦ elim (decode_from k bs) [ none ↦ none | some s ↦ some (c ∷ s) ]
]

unfoldable pub decode : Bytes → Option Text
unfolding decode_from
decode bs = decode_from 0 bs
