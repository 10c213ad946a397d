-- ===== src/Python/IntBytes.antt =====
-- int.to_bytes(width, "big") and int.from_bytes(_, "big"), and what the one makes the other reads.
use confidential_ml_feature.Prelude.{
  ℕ, zero, suc, ◌+◌, ◌*◌, ◌/◌, ◌%◌, ◌^◌, ◌<◌, ◌≡◌, refl, ◌∙◌, [], ◌∷◌, ◌++◌, Bytes, arith, length,
  length-append,
}

-- The last `width` base-256 digits of a number, the most significant first.
unfoldable pub to_bytes : ℕ → ℕ → Bytes
to_bytes zero v = []
to_bytes (suc width) v = to_bytes width (v / 256) ++ v % 256 ∷ []

from_bytes_acc : ℕ → Bytes → ℕ
from_bytes_acc acc [] = acc
from_bytes_acc acc (b ∷ bs) = from_bytes_acc (acc * 256 + b) bs

unfoldable pub from_bytes : Bytes → ℕ
unfolding from_bytes_acc
from_bytes bs = from_bytes_acc 0 bs

pub length-to_bytes : (width v : ℕ) → length (to_bytes width v) ≡ width
unfolding to_bytes
length-to_bytes zero v = refl
length-to_bytes (suc width) v = omega (
  arith,
  length-append (to_bytes width (v / 256)) (v % 256 ∷ []),
  length-to_bytes width (v / 256),
)

from_bytes_acc-snoc :
    (acc : ℕ) (bs : Bytes) (b : ℕ)
    → from_bytes_acc acc (bs ++ b ∷ []) ≡ from_bytes_acc acc bs * 256 + b
unfolding from_bytes_acc
from_bytes_acc-snoc acc [] b = refl
from_bytes_acc-snoc acc (x ∷ bs) b = from_bytes_acc-snoc (acc * 256 + x) bs b

-- `v` has at most `width` digits.
abbrev Fits : ℕ → ℕ → Type 0
Fits zero v = v ≡ 0
Fits (suc width) v = Fits width (v / 256)

from_bytes-to_bytes : (width v : ℕ) → Fits width v → from_bytes (to_bytes width v) ≡ v
unfolding to_bytes from_bytes
from_bytes-to_bytes zero v h = omega arith
from_bytes-to_bytes (suc width) v h =
    from_bytes_acc-snoc 0 (to_bytes width (v / 256)) (v % 256)
    ∙ omega (arith, from_bytes-to_bytes width (v / 256) h)

pub from_bytes-to_bytes_1 : (v : ℕ) → v < 256 → from_bytes (v ∷ []) ≡ v
unfolding from_bytes from_bytes_acc
from_bytes-to_bytes_1 v h = omega arith

pub from_bytes-to_bytes_2 : (v : ℕ) → v < 65536 → from_bytes (to_bytes 2 v) ≡ v
from_bytes-to_bytes_2 v h = from_bytes-to_bytes 2 v (omega arith)

pub from_bytes-to_bytes_4 : (v : ℕ) → v < 2 ^ 32 → from_bytes (to_bytes 4 v) ≡ v
from_bytes-to_bytes_4 v h = from_bytes-to_bytes 4 v (omega arith)

pub from_bytes-to_bytes_8 : (v : ℕ) → v < 2 ^ 64 → from_bytes (to_bytes 8 v) ≡ v
from_bytes-to_bytes_8 v h = from_bytes-to_bytes 8 v (omega arith)
