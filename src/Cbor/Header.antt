-- ===== src/Cbor/Header.antt =====
-- enclave/attestation.py: the head of an item, for `_encode_length` and `_read_length`.
use mathlib.Core.Path.{subst}
use confidential_ml_feature.Prelude.{
  ℕ, ◌+◌, ◌*◌, ◌/◌, ◌%◌, ◌^◌, ◌<◌, ◌≡◌, refl, [], ◌∷◌, ◌++◌, Bytes, arith, length, length-append,
  take-length-append, drop-length-append, ltb, Bool-cases, inl, inr, ok,
}
use confidential_ml_feature.Python.IntBytes.{
  to_bytes, from_bytes, length-to_bytes, from_bytes-to_bytes_1, from_bytes-to_bytes_2,
  from_bytes-to_bytes_4, from_bytes-to_bytes_8,
}
use confidential_ml_feature.Cbor.Encoder.{encode_length}
use confidential_ml_feature.Cbor.Decoder.{read, read_int, read_length}

pub read-append : (ds rest : Bytes) → read (length ds) (ds ++ rest) ≡ ok (ds, rest)
unfolding read
read-append ds rest = elim (Bool-cases (ltb (length (ds ++ rest)) (length ds))) [
  | inl short ↦ absurd (ground (arith, length-append ds rest))
  | inr fits ↦ rw (fits, take-length-append ds rest, drop-length-append ds rest) refl
]

read_int-append :
    (width : ℕ) (ds rest : Bytes) (v : ℕ)
    → length ds ≡ width
    → from_bytes ds ≡ v
    → read_int width (ds ++ rest) ≡ ok (v, rest)
unfolding read_int
read_int-append width ds rest v l e = rw (← l, read-append ds rest, e) refl

-- `bs` is the head of an item of this major type and this value.
pub record IsHeader (major value : ℕ) (bs : Bytes) : Type 0 where
  pub initial : ℕ
  pub more : Bytes
  pub split : bs ≡ initial ∷ more
  pub major_bits : initial / 32 ≡ major
  pub reads : (rest : Bytes) → read_length (initial % 32) (more ++ rest) ≡ ok (value, rest)

module _ (major value : ℕ) where
  wide :
      (info width : ℕ)
      → info < 32
      → ((rest : Bytes)
          → read_length info (to_bytes width value ++ rest)
            ≡ read_int width (to_bytes width value ++ rest))
      → from_bytes (to_bytes width value) ≡ value
      → IsHeader major value ((major * 32 + info) ∷ to_bytes width value)
  wide info width small step back = record {
    initial = major * 32 + info;
    more = to_bytes width value;
    split = refl;
    major_bits = omega arith;
    reads = λ rest.
        let low : (major * 32 + info) % 32 ≡ info = omega arith in
        rw (low, step rest)
          (read_int-append width (to_bytes width value) rest value (length-to_bytes width value)
            back);
  }

  narrow : value < 24 → IsHeader major value ((major * 32 + value) ∷ [])
  unfolding read_length
  narrow h = record {
    initial = major * 32 + value;
    more = [];
    split = refl;
    major_bits = omega arith;
    reads =
        λ rest. let low : (major * 32 + value) % 32 ≡ value = omega arith in rw low (ground arith);
  }

  one_byte : value < 256 → IsHeader major value ((major * 32 + 24) ∷ value ∷ [])
  unfolding read_length
  one_byte h = record {
    initial = major * 32 + 24;
    more = value ∷ [];
    split = refl;
    major_bits = omega arith;
    reads = λ rest.
        let low : (major * 32 + 24) % 32 ≡ 24 = omega arith in
        rw low (read_int-append 1 (value ∷ []) rest value refl (from_bytes-to_bytes_1 value h));
  }

  -- Whatever `encode_length` writes is such a head.
  pub encode_length-IsHeader :
      (bs : Bytes) → encode_length major value ≡ ok bs → IsHeader major value bs
  unfolding encode_length read_length
  encode_length-IsHeader bs e = elim (Bool-cases (ltb value 24)) [
    | inl h ↦ subst (IsHeader major value) (ground arith) (narrow (ground arith))
    | inr h₁ ↦ elim (Bool-cases (ltb value (2 ^ 8))) [
      | inl h ↦ subst (IsHeader major value) (ground arith) (one_byte (ground arith))
      | inr h₂ ↦ elim (Bool-cases (ltb value (2 ^ 16))) [
        | inl h ↦
            subst (IsHeader major value) (ground arith)
              (wide 25 2 (omega arith) (λ rest. refl) (from_bytes-to_bytes_2 value (ground arith)))
        | inr h₃ ↦ elim (Bool-cases (ltb value (2 ^ 32))) [
          | inl h ↦
              subst (IsHeader major value) (ground arith) (
                wide 26 4 (omega arith) (λ rest. refl) (from_bytes-to_bytes_4 value (ground arith)))
          | inr h₄ ↦ elim (Bool-cases (ltb value (2 ^ 64))) [
            | inl h ↦ subst (IsHeader major value) (ground arith) (
                wide 27 8 (omega arith) (λ rest. refl) (from_bytes-to_bytes_8 value (ground arith)))
            | inr h₅ ↦ absurd (ground arith)
          ]
        ]
      ]
    ]
  ]
