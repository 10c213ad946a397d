-- ===== src/Python/Codes.antt =====
-- The code points of a text literal.
use Prim.Native.Char.{code}
use Prim.Native.String.{String}
use confidential_ml_feature.Prelude.{[], ◌∷◌, Text}

abbrev pub codes : String → Text
codes String.[] = []
codes (String.◌∷◌ c s) = code c ∷ codes s
