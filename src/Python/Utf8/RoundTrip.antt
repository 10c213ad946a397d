-- ===== src/Python/Utf8/RoundTrip.antt =====
-- What UTF-8 encodes it decodes back.
use confidential_ml_feature.Prelude.{
  ℕ, ◌≤◌, ◌<◌, ◌+◌, ◌/◌, ◌%◌, ◌≡◌, refl, [], ◌∷◌, ◌++◌, false, ◌&&◌, Option, none, some, Text,
  Bytes, leb, ltb, arith, Bool-cases, inl, inr,
}
use confidential_ml_feature.Python.Utf8.{encode_char, encode, read_char, decode_from, decode}

module _ (c : ℕ) (rest : Bytes) where
  read_char_one : c < 0x80 → read_char c rest ≡ some (c, 0)
  unfolding read_char
  read_char_one h = ground arith

  read_char_two :
      0x80 ≤ c → c < 0x800 → read_char (0xC0 + c / 64) ((0x80 + c % 64) ∷ rest) ≡ some (c, 1)
  unfolding read_char
  read_char_two l h = ground arith

  read_char_three :
      0x800 ≤ c
      → c < 0x10000
      → (leb 0xD800 c && ltb c 0xE000) ≡ false
      → read_char (0xE0 + c / 4096) ((0x80 + c / 64 % 64) ∷ (0x80 + c % 64) ∷ rest) ≡ some (c, 2)
  unfolding read_char
  read_char_three l h s = ground arith

  read_char_four :
      0x10000 ≤ c
      → c < 0x110000
      → read_char
          (0xF0 + c / 262144)
          ((0x80 + c / 4096 % 64) ∷ (0x80 + c / 64 % 64) ∷ (0x80 + c % 64) ∷ rest)
        ≡ some (c, 3)
  unfolding read_char
  read_char_four l h = ground arith

-- One encoded code point is read back, and nothing past it.
module _ (c : ℕ) (rest : Bytes) where
  abbrev Reads : Option Bytes → Type 0
  Reads none = Unit
  Reads (some b) =
      decode_from 0 (b ++ rest) ≡ elim (decode_from 0 rest) [ none ↦ none | some s ↦ some (c ∷ s) ]

  encode_char-Reads : Reads (encode_char c)
  unfolding encode_char decode_from
  encode_char-Reads = elim (Bool-cases (ltb c 0x80)) [
    | inl one ↦ rw one (rw (read_char_one c rest (ground arith), decode_from) refl)
    | inr h₁ ↦ rw h₁ (elim (Bool-cases (ltb c 0x800)) [
      | inl two ↦ rw two (rw (read_char_two c rest (ground arith) (ground arith), decode_from) refl)
      | inr h₂ ↦ rw h₂ (elim (Bool-cases (leb 0xD800 c && ltb c 0xE000)) [
        | inl surrogate ↦ rw surrogate tt
        | inr h₃ ↦ rw h₃ (elim (Bool-cases (ltb c 0x10000)) [
          | inl three ↦
              rw three
                (rw (read_char_three c rest (ground arith) (ground arith) h₃, decode_from) refl)
          | inr h₄ ↦ rw h₄ (elim (Bool-cases (ltb c 0x110000)) [
            | inl four ↦
                rw four (rw (read_char_four c rest (ground arith) (ground arith), decode_from) refl)
            | inr h₅ ↦ rw h₅ tt
          ])
        ])
      ])
    ])
  ]

decode_from-encode : (s : Text) (bs : Bytes) → encode s ≡ some bs → decode_from 0 bs ≡ some s
unfolding encode decode_from
decode_from-encode [] bs h = ground arith
decode_from-encode (c ∷ s) bs h =
    go (encode_char c) (λ r. encode_char-Reads c r) (encode s) (λ b e. decode_from-encode s b e) h
  where
    go :
        (o : Option Bytes)
        → ((r : Bytes) → Reads c r o)
        → (m : Option Bytes) → ((b : Bytes) → m ≡ some b → decode_from 0 b ≡ some s)
        → elim o [ none ↦ none | some b ↦ elim m [ none ↦ none | some rest ↦ some (b ++ rest) ] ]
          ≡ some bs
        → decode_from 0 bs ≡ some (c ∷ s)
    go none first m others e = cc
    go (some b) first none others e = cc
    go (some b) first (some rest) others e =
        let split : bs ≡ b ++ rest = cc in rw split (rw (first rest, others rest refl) refl)

-- Encoding and then decoding gives the text back.
pub decode-encode : (s : Text) (bs : Bytes) → encode s ≡ some bs → decode bs ≡ some s
unfolding decode
decode-encode s bs h = decode_from-encode s bs h
