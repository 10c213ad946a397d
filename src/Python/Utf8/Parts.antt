-- ===== src/Python/Utf8/Parts.antt =====
-- The bytes of an encoded text: those of its parts, and no 0 but for the code point 0.
use mathlib.Core.Path.{subst}
use confidential_ml_feature.Prelude.{
  ℕ, ◌≢◌, ◌≡◌, refl, [], ◌∷◌, ◌++◌, ◌&&◌, Option, none, some, Text, Bytes, leb, ltb, arith, if-elim,
  All, All-append, append_assoc, ◌∙◌, sym,
}
use confidential_ml_feature.Python.Utf8.{encode_char, encode}

-- UTF-8 has the byte 0 only for the code point 0.
abbrev OptionNoNul : Option Bytes → Type 0
OptionNoNul none = Unit
OptionNoNul (some b) = All (λ x. x ≢ 0) b

encode_char-NoNul : (c : ℕ) → c ≢ 0 → OptionNoNul (encode_char c)
unfolding encode_char
encode_char-NoNul c h =
    if-elim OptionNoNul (ltb c 0x80) _ _ (λ _. (h, tt))
      (λ _.
        if-elim OptionNoNul (ltb c 0x800) _ _ (λ _. omega arith)
          (λ _.
            if-elim OptionNoNul (leb 0xD800 c && ltb c 0xE000) _ _ (λ _. tt)
              (λ _.
                if-elim OptionNoNul (ltb c 0x10000) _ _ (λ _. omega arith)
                  (λ _. if-elim OptionNoNul (ltb c 0x110000) _ _ (λ _. omega arith) (λ _. tt)))))

OptionNoNul-append :
    (o m : Option Bytes)
    → OptionNoNul o
    → OptionNoNul m
    → OptionNoNul
        (elim o [ none ↦ none | some b ↦ elim m [ none ↦ none | some bs ↦ some (b ++ bs) ] ])
OptionNoNul-append none m h k = tt
OptionNoNul-append (some b) none h k = tt
OptionNoNul-append (some b) (some bs) h k = All-append (λ x. x ≢ 0) b bs h k

encode-OptionNoNul : (s : Text) → All (λ c. c ≢ 0) s → OptionNoNul (encode s)
unfolding encode
encode-OptionNoNul [] h = tt
encode-OptionNoNul (c ∷ s) h =
    OptionNoNul-append (encode_char c) (encode s) (encode_char-NoNul c h.0)
      (encode-OptionNoNul s h.1)

pub encode-NoNul :
    (s : Text) (bs : Bytes) → All (λ c. c ≢ 0) s → encode s ≡ some bs → All (λ x. x ≢ 0) bs
encode-NoNul s bs h e = subst OptionNoNul e (encode-OptionNoNul s h)

-- Encoding one text and then another.
abbrev pub join_encoded : Option Bytes → Option Bytes → Option Bytes
join_encoded none m = none
join_encoded (some b) none = none
join_encoded (some b) (some bs) = some (b ++ bs)

join_encoded_assoc :
    (o m n : Option Bytes) → join_encoded (join_encoded o m) n ≡ join_encoded o (join_encoded m n)
join_encoded_assoc none m n = refl
join_encoded_assoc (some b) none n = refl
join_encoded_assoc (some b) (some c) none = refl
join_encoded_assoc (some b) (some c) (some d) = rw append_assoc

encode-cons : (c : ℕ) (s : Text) → encode (c ∷ s) ≡ join_encoded (encode_char c) (encode s)
unfolding encode
encode-cons c s = ground arith

pub encode-append : (s t : Text) → encode (s ++ t) ≡ join_encoded (encode s) (encode t)
encode-append [] t = unfold encode in ground arith
encode-append (c ∷ s) t =
    encode-cons c (s ++ t)
    ∙ rw (encode-append s t, encode-cons c s)
        (sym (join_encoded_assoc (encode_char c) (encode s) (encode t)))

pub encode-cons_nul : (s : Text) (b : Bytes) → encode s ≡ some b → encode (0 ∷ s) ≡ some (0 ∷ b)
unfolding encode
encode-cons_nul s b e = rw (e, encode) refl
