-- ===== src/Prelude/Int.antt =====
-- Python's `int`: `negsuc n` is -(n + 1).
use Prim.Native.Nat.{ℕ, compare, Ordering}
use mathlib.Core.Bool.{Bool, true, false}

pub data ℤ : Type 0 where
  pos : ℕ → ℤ
  negsuc : ℕ → ℤ

-- i > 0
abbrev pub positive : ℤ → Bool
positive (pos n) = elim (compare 0 n) [ Ordering.lt ↦ true | _ ↦ false ]
positive (negsuc n) = false
