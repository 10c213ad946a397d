-- ===== src/FeatureStore/Attributes.antt =====
-- The values that `DynamoDBService` stores and reads, `_to_decimal` and `_from_decimal`. Floats and
-- decimals are opaque numbers, with the conversions between them as parameters.
use confidential_ml_feature.Prelude.{
  ℕ, ◌≡◌, refl, ◌=ₜ◌, Bool, Option, none, some, Text, if◌then◌else◌,
}

mutual
  pub data Attribute : Type 0 where
    text : Text → Attribute
    boolean : Bool → Attribute
    int : ℕ → Attribute
    decimal : ℕ → Attribute
    float : ℕ → Attribute
    list : Attributes → Attribute
    dict : Item → Attribute

  pub data Attributes : Type 0 where
    nil : Attributes
    cons : Attribute → Attributes → Attributes

  pub data Item : Type 0 where
    end : Item
    entry : Text → Attribute → Item → Item

-- item.get(name)
unfoldable pub get_attribute : Text → Item → Option Attribute
get_attribute name end = none
get_attribute name (entry k v item) = if k =ₜ name then some v else get_attribute name item

-- `_to_decimal`, with Decimal(str(_)) as `decimal_of`.
unfoldable mutual
  pub to_decimal : (ℕ → ℕ) → Attribute → Attribute
  to_decimal decimal_of (dict item) = dict (items_to_decimal decimal_of item)
  to_decimal decimal_of (list vs) = list (list_to_decimal decimal_of vs)
  to_decimal decimal_of (float x) = decimal (decimal_of x)
  to_decimal decimal_of v = v

  pub list_to_decimal : (ℕ → ℕ) → Attributes → Attributes
  list_to_decimal decimal_of nil = nil
  list_to_decimal decimal_of (cons v vs) =
      cons (to_decimal decimal_of v) (list_to_decimal decimal_of vs)

  pub items_to_decimal : (ℕ → ℕ) → Item → Item
  items_to_decimal decimal_of end = end
  items_to_decimal decimal_of (entry k v item) =
      entry k (to_decimal decimal_of v) (items_to_decimal decimal_of item)

-- `_from_decimal`, with float(_) as `float_of`.
unfoldable mutual
  pub from_decimal : (ℕ → ℕ) → Attribute → Attribute
  from_decimal float_of (dict item) = dict (items_from_decimal float_of item)
  from_decimal float_of (list vs) = list (list_from_decimal float_of vs)
  from_decimal float_of (decimal x) = float (float_of x)
  from_decimal float_of v = v

  pub list_from_decimal : (ℕ → ℕ) → Attributes → Attributes
  list_from_decimal float_of nil = nil
  list_from_decimal float_of (cons v vs) =
      cons (from_decimal float_of v) (list_from_decimal float_of vs)

  pub items_from_decimal : (ℕ → ℕ) → Item → Item
  items_from_decimal float_of end = end
  items_from_decimal float_of (entry k v item) =
      entry k (from_decimal float_of v) (items_from_decimal float_of item)

-- A value of the API, in which no number is a decimal yet.
unfoldable mutual
  pub HasNoDecimal : Attribute → Type 0
  HasNoDecimal (dict item) = ItemHasNoDecimal item
  HasNoDecimal (list vs) = ListHasNoDecimal vs
  HasNoDecimal (decimal x) = ⊥
  HasNoDecimal v = Unit

  pub ListHasNoDecimal : Attributes → Type 0
  ListHasNoDecimal nil = Unit
  ListHasNoDecimal (cons v vs) = HasNoDecimal v × ListHasNoDecimal vs

  pub ItemHasNoDecimal : Item → Type 0
  ItemHasNoDecimal end = Unit
  ItemHasNoDecimal (entry k v item) = HasNoDecimal v × ItemHasNoDecimal item

module _ (decimal_of float_of : ℕ → ℕ) (exact : (x : ℕ) → float_of (decimal_of x) ≡ x) where
  mutual
    unfolding from_decimal to_decimal HasNoDecimal

    round : (v : Attribute) → HasNoDecimal v → from_decimal float_of (to_decimal decimal_of v) ≡ v
    round (dict item) h = cc (items-round item h)
    round (list vs) h = cc (list-round vs h)
    round (float x) h = cc (exact x)
    round (decimal x) h = absurd h
    round (text s) h = refl
    round (boolean b) h = refl
    round (int n) h = refl

    list-round :
        (vs : Attributes)
        → ListHasNoDecimal vs
        → list_from_decimal float_of (list_to_decimal decimal_of vs) ≡ vs
    list-round nil h = refl
    list-round (cons v vs) h = cc (round v h.0, list-round vs h.1)

    items-round :
        (item : Item)
        → ItemHasNoDecimal item
        → items_from_decimal float_of (items_to_decimal decimal_of item) ≡ item
    items-round end h = refl
    items-round (entry k v item) h = cc (round v h.0, items-round item h.1)

  -- Where every float is read back from the decimal of its text: a value of the API, nested as it
  -- may be, is read back as it was stored.
  pub from_decimal-to_decimal :
      (v : Attribute) → HasNoDecimal v → from_decimal float_of (to_decimal decimal_of v) ≡ v
  from_decimal-to_decimal v h = round v h
