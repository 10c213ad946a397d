-- ===== src/Settings/Region.antt =====
-- The pattern of AWS regions and the regions that it matches.
use mathlib.Core.Path.{subst}
use confidential_ml_feature.Prelude.{
  ℕ, ◌≡◌, refl, ap, ◌⊎◌, inl, inr, Bool, true, false, ◌&&◌, ◌||◌, [], ◌∷◌, ◌++◌, arith, ◌==◌,
  Bool-cases, Text, ok,
}
use confidential_ml_feature.Python.Strip.{strip, is_empty}
use confidential_ml_feature.Settings.{
  Texts, all_are, is_lower, is_region_char, matches_number, matches_zone, matches_region,
  validate_aws_region,
}

-- A region, such as us-east-1: two letters, a part of one character or more, and a number.
pub record IsRegion (texts : Texts) (region : Text) : Type 0 where
  pub first : ℕ
  pub second : ℕ
  pub third : ℕ
  pub middle : Text
  pub number : Text
  pub split : region ≡ first ∷ second ∷ 45 ∷ third ∷ (middle ++ 45 ∷ number)
  pub letters : (is_lower first ≡ true) × (is_lower second ≡ true)
  pub part : all_are is_region_char (third ∷ middle) ≡ true
  pub some_digits : is_empty number ≡ false
  pub digits : all_are texts.is_decimal number ≡ true

record IsZone (texts : Texts) (s : Text) : Type 0 where
  pub middle : Text
  pub number : Text
  pub split : s ≡ middle ++ 45 ∷ number
  pub part : all_are is_region_char middle ≡ true
  pub some_digits : is_empty number ≡ false
  pub digits : all_are texts.is_decimal number ≡ true

pub both : (a b : Bool) → (a && b) ≡ true → (a ≡ true) × (b ≡ true)
both true true e = (refl, refl)
both true false e = absurd (ground (arith, e))
both false b e = absurd (ground (arith, e))

either : (a b : Bool) → (a || b) ≡ true → (a ≡ true) ⊎ (b ≡ true)
either true b e = inl refl
either false b e = inr e

matches_number-digits :
    (texts : Texts) (s : Text)
    → matches_number texts s ≡ true
    → (is_empty s ≡ false) × (all_are texts.is_decimal s ≡ true)
unfolding matches_number
matches_number-digits texts [] e = absurd (ground (arith, e))
matches_number-digits texts (c ∷ s) e = (refl, e)

matches_zone-IsZone : (texts : Texts) (s : Text) → matches_zone texts s ≡ true → IsZone texts s
unfolding matches_zone all_are
matches_zone-IsZone texts [] e = absurd (ground (arith, e))
matches_zone-IsZone texts (c ∷ s) e =
    elim (either (c == 45 && matches_number texts s) (is_region_char c && matches_zone texts s) e) [
      | inl dash ↦
          let (at, number) = both (c == 45) (matches_number texts s) dash in
          let (some_digits, digits) = matches_number-digits texts s number in
          record {
            middle = [];
            number = s;
            split = ground (arith, at);
            part = refl;
            some_digits = some_digits;
            digits = digits;
          }
      | inr more ↦
          let (char, rest) = both (is_region_char c) (matches_zone texts s) more in
          let zone = matches_zone-IsZone texts s rest in
          record {
            middle = c ∷ zone.middle;
            number = zone.number;
            split = ap (◌∷◌ c) zone.split;
            part = rw char zone.part;
            some_digits = zone.some_digits;
            digits = zone.digits;
          }
    ]

matches_region-IsRegion :
    (texts : Texts) (s : Text) → matches_region texts s ≡ true → IsRegion texts s
unfolding matches_region all_are
matches_region-IsRegion texts (a ∷ b ∷ c ∷ d ∷ s) e =
    let (abcd, zone) =
      both (is_lower a && is_lower b && c == 45 && is_region_char d) (matches_zone texts s) e in
    let (abc, fourth) = both (is_lower a && is_lower b && c == 45) (is_region_char d) abcd in
    let (ab, dash) = both (is_lower a && is_lower b) (c == 45) abc in
    let z = matches_zone-IsZone texts s zone in
    let at : c ≡ 45 = ground (arith, dash) in
    record {
      first = a;
      second = b;
      third = d;
      middle = z.middle;
      number = z.number;
      split = rw (at, z.split) refl;
      letters = both (is_lower a) (is_lower b) ab;
      part = rw fourth z.part;
      some_digits = z.some_digits;
      digits = z.digits;
    }
matches_region-IsRegion texts [] e = absurd (ground (arith, e))
matches_region-IsRegion texts (a ∷ []) e = absurd (ground (arith, e))
matches_region-IsRegion texts (a ∷ b ∷ []) e = absurd (ground (arith, e))
matches_region-IsRegion texts (a ∷ b ∷ c ∷ []) e = absurd (ground (arith, e))

pub validate_aws_region-IsRegion :
    (texts : Texts) (value region : Text)
    → validate_aws_region texts value ≡ ok region
    → IsRegion texts region
unfolding validate_aws_region
validate_aws_region-IsRegion texts value region e = elim (Bool-cases (is_empty (strip value))) [
  | inl blank ↦ absurd (ground (arith, blank, e))
  | inr full ↦ elim (Bool-cases (matches_region texts (strip value))) [
    | inl h ↦
        subst (IsRegion texts) (ground (arith, full, h, e))
          (matches_region-IsRegion texts (strip value) h)
    | inr h ↦ absurd (ground (arith, full, h, e))
  ]
]
