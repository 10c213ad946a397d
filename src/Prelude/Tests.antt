-- ===== src/Prelude/Tests.antt =====
-- Boolean tests on numbers and on lists of numbers, and the conditional.
use Prim.Native.Nat.{ℕ, compare, Ordering}
use mathlib.Core.Path.{◌≡◌, refl}
use mathlib.Core.Logic.{◌↔◌, ◌⊎◌, inl, inr}
use mathlib.Core.Bool.{Bool, true, false, ◌&&◌}
use mathlib.Core.List.{List, [], ◌∷◌}
use mathlib.Core.Option.{Option, none, some}
use native.Mathlib.Omega.{arith}

abbrev pub ltb : ℕ → ℕ → Bool
ltb a b = elim (compare a b) [ Ordering.lt ↦ true | _ ↦ false ]

abbrev pub leb : ℕ → ℕ → Bool
leb a b = elim (compare a b) [ Ordering.gt ↦ false | _ ↦ true ]

infix 50 ◌==◌ ◌=ₜ◌
abbrev pub ◌==◌ : ℕ → ℕ → Bool
a == b = elim (compare a b) [ Ordering.eq ↦ true | _ ↦ false ]

infix 1 if◌then◌else◌
abbrev pub if◌then◌else◌ {ℓ} : {A : Type ℓ} → Bool → A → A → A
if true then x else y = x
if false then x else y = y

-- Equality of texts and of byte strings.
unfoldable pub ◌=ₜ◌ : List ℕ → List ℕ → Bool
[] =ₜ [] = true
(x ∷ xs) =ₜ (y ∷ ys) = x == y && xs =ₜ ys
_ =ₜ _ = false

pub =ₜ-sound : (xs ys : List ℕ) → (xs =ₜ ys) ≡ true → xs ≡ ys
unfolding ◌=ₜ◌
=ₜ-sound [] [] h = refl
=ₜ-sound [] (y ∷ ys) h = ground arith
=ₜ-sound (x ∷ xs) [] h = ground arith
=ₜ-sound (x ∷ xs) (y ∷ ys) h = ground (arith, =ₜ-sound xs ys)

pub =ₜ-refl : (xs : List ℕ) → (xs =ₜ xs) ≡ true
unfolding ◌=ₜ◌
=ₜ-refl [] = refl
=ₜ-refl (x ∷ xs) = ground (arith, =ₜ-refl xs)

pub =ₜ_iff : (xs ys : List ℕ) → ((xs =ₜ ys) ≡ true) ↔ (xs ≡ ys)
=ₜ_iff xs ys = (=ₜ-sound xs ys, λ e. ground (arith, =ₜ-refl xs))

-- To split on a computed value and keep the equation.
pub Bool-cases : (b : Bool) → (b ≡ true) ⊎ (b ≡ false)
Bool-cases true = inl refl
Bool-cases false = inr refl

pub Option-cases {ℓ} : {A : Type ℓ} (o : Option A) → (o ≡ none) ⊎ ((a : A) × (o ≡ some a))
Option-cases none = inl refl
Option-cases (some a) = inr (a, refl)

-- A property of both branches, each under its test.
pub if-elim {ℓ κ} :
    {A : Type ℓ} (P : A → Type κ) (b : Bool) (x y : A)
    → (b ≡ true → P x)
    → (b ≡ false → P y)
    → P (if b then x else y)
if-elim P true x y hx hy = hx refl
if-elim P false x y hx hy = hy refl

-- What an `if` is, under each test.
pub if_true {ℓ} : {A : Type ℓ} (b : Bool) (x y : A) → b ≡ true → (if b then x else y) ≡ x
if_true true x y h = refl
if_true false x y h = cc

pub if_false {ℓ} : {A : Type ℓ} (b : Bool) (x y : A) → b ≡ false → (if b then x else y) ≡ y
if_false true x y h = cc
if_false false x y h = refl
