-- ===== src/Python/Digits.antt =====
-- `str` of an int, and `bytes.hex`.
use confidential_ml_feature.Prelude.{
  ℕ, zero, suc, ◌+◌, ◌/◌, ◌%◌, ℤ, pos, negsuc, [], ◌∷◌, ◌++◌, Text, Bytes, ltb, if◌then◌else◌,
}

-- The decimal digits of a number, on fuel: `suc n` is enough for `n`.
decimal : ℕ → ℕ → Text
decimal zero n = []
decimal (suc f) n =
    let more = decimal f (n / 10) ++ (48 + n % 10) ∷ [] in if ltb n 10 then (48 + n) ∷ [] else more

unfoldable pub str_of_int : ℤ → Text
unfolding decimal
str_of_int (pos n) = decimal (suc n) n
str_of_int (negsuc n) = b'-' ∷ decimal (suc (suc n)) (suc n)

abbrev pub hex_digit : ℕ → ℕ
hex_digit d = if ltb d 10 then 48 + d else 87 + d

unfoldable pub hex : Bytes → Text
hex [] = []
hex (b ∷ bs) = hex_digit (b / 16) ∷ hex_digit (b % 16) ∷ hex bs
