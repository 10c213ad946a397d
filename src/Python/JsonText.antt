-- ===== src/Python/JsonText.antt =====
-- `json.dumps` of a text, and of a dict from texts to texts, with separators "," and ":".
use confidential_ml_feature.Prelude.{
  ℕ, ◌+◌, ◌-◌, ◌/◌, ◌%◌, List, [], ◌∷◌, ◌++◌, Bool, true, false, ◌&&◌, Text, Bytes, leb, ltb, ◌==◌,
  if◌then◌else◌,
}
use confidential_ml_feature.Python.Digits.{hex_digit}

-- \uXXXX
abbrev unicode_escape : ℕ → Text
unicode_escape u =
    b'\\'
    ∷ b'u'
    ∷ hex_digit (u / 4096)
    ∷ hex_digit (u / 256 % 16)
    ∷ hex_digit (u / 16 % 16)
    ∷ hex_digit (u % 16)
    ∷ []

-- One code point, escaped to ASCII; beyond U+FFFF as a surrogate pair.
unfoldable pub escape : ℕ → Text
escape c =
    if c == b'"'
    then b'\\' ∷ b'"' ∷ []
    else if c == b'\\'
    then b'\\' ∷ b'\\' ∷ []
    else if c == 10
    then b'\\' ∷ b'n' ∷ []
    else if c == 13
    then b'\\' ∷ b'r' ∷ []
    else if c == 9
    then b'\\' ∷ b't' ∷ []
    else if c == 12
    then b'\\' ∷ b'f' ∷ []
    else if c == 8
    then b'\\' ∷ b'b' ∷ []
    else if leb 32 c && leb c 126
    then c ∷ []
    else if ltb c 65536
    then unicode_escape c
    else unicode_escape (0xD800 + (c - 65536) / 1024 % 1024)
      ++ unicode_escape (0xDC00 + (c - 65536) % 1024)

escape_all : Text → Text
unfolding escape
escape_all [] = []
escape_all (c ∷ s) = escape c ++ escape_all s

unfoldable pub dumps_text : Text → Text
unfolding escape_all
dumps_text s = b'"' ∷ (escape_all s ++ b'"' ∷ [])

dumps_fields : Bool → List (Text × Text) → Text
unfolding dumps_text
dumps_fields first [] = b'}' ∷ []
dumps_fields first ((k, v) ∷ d) =
    (if first then [] else b',' ∷ [])
    ++ (dumps_text k ++ b':' ∷ (dumps_text v ++ dumps_fields false d))

-- The text is ASCII, so its UTF-8 bytes are its code points.
unfoldable pub dumps : List (Text × Text) → Bytes
unfolding dumps_fields
dumps d = b'{' ∷ dumps_fields true d
