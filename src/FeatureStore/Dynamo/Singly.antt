-- ===== src/FeatureStore/Dynamo/Singly.antt =====
-- `DynamoDBService.get_feature_set`, by what the table holds under the name.
use confidential_ml_feature.Prelude.{
  ◌≡◌, refl, ◌⊎◌, inl, inr, true, false, none, List, [], ◌∷◌, Text, ok, err, arith, Bool,
}
use mathlib.Core.Path.{subst}
use confidential_ml_feature.Python.Codes.{codes}
use confidential_ml_feature.FeatureStore.{FeatureSetResponse, feature_set_not_found}
use confidential_ml_feature.FeatureStore.Attributes.{Item, get_attribute}
use confidential_ml_feature.FeatureStore.Dynamo.{
  Boto, feature_resource_id, is_kind, item_to_feature_response, feature_set_of, get_feature_set,
}
use confidential_ml_feature.FeatureStore.Dynamo.Answers.{Holds}

abbrev pub is_feature_set : Item → Bool
is_feature_set item = is_kind (codes "FEATURE_SET") (get_attribute (codes "entity_type") item)

abbrev pub key_of : Text → Text → Text × Text
key_of tenant_id name = (tenant_id, feature_resource_id name)

module _ {Table : Type 0} (boto : Boto Table) (table : Table) (tenant_id : Text) where
  -- Under the key of a feature set's name there is nothing, or an item of another kind, or a feature
  -- set that can be read, of that name.
  pub data Readable (name : Text) : Type 0 where
    absent : boto.get_item tenant_id (feature_resource_id name) table ≡ ok none → Readable name
    other_kind :
        {item : Item}
        → Holds boto table (key_of tenant_id name) item
        → is_feature_set item ≡ false
        → Readable name
    present :
        {item : Item} {r : FeatureSetResponse}
        → Holds boto table (key_of tenant_id name) item
        → is_feature_set item ≡ true
        → item_to_feature_response boto item ≡ ok r
        → r.feature_set_name ≡ name
        → Readable name

  -- The feature sets that `get_feature_set` finds, name by name.
  unfoldable pub found_singly : List Text → List FeatureSetResponse
  found_singly [] = []
  found_singly (name ∷ names) = elim (get_feature_set boto tenant_id name table) [
    | ok r ↦ r ∷ found_singly names
    | err e ↦ found_singly names
  ]

  pub single_of_kind :
      (name : Text) (item : Item) (r : FeatureSetResponse)
      → Holds boto table (key_of tenant_id name) item
      → is_feature_set item ≡ true
      → item_to_feature_response boto item ≡ ok r
      → get_feature_set boto tenant_id name table ≡ ok r
  unfolding get_feature_set feature_set_of
  single_of_kind name item r h k e = rw (h, feature_set_of) (rw k e)

  pub single_other :
      (name : Text) (item : Item)
      → Holds boto table (key_of tenant_id name) item
      → is_feature_set item ≡ false
      → get_feature_set boto tenant_id name table ≡ err feature_set_not_found
  unfolding get_feature_set feature_set_of
  single_other name item h k = rw (h, feature_set_of) (rw k refl)

  -- What reading one stored item gives.
  abbrev pub ItemRead : Text → Item → Type 0
  ItemRead name item =
      (is_feature_set item ≡ false)
      ⊎ ((r : FeatureSetResponse) × (is_feature_set item ≡ true)
          × (item_to_feature_response boto item ≡ ok r)
          × (r.feature_set_name ≡ name))

  same_item :
      (name : Text) (item other : Item)
      → Holds boto table (key_of tenant_id name) item
      → Holds boto table (key_of tenant_id name) other
      → other ≡ item
  same_item name item other h k = cc

  pub Readable-ItemRead :
      (name : Text) (item : Item)
      → Readable name
      → Holds boto table (key_of tenant_id name) item
      → ItemRead name item
  Readable-ItemRead name item (absent e) h = absurd (ground (arith, e, h))
  Readable-ItemRead name item (other_kind {item = other} k f) h =
      subst (ItemRead name) (same_item name item other h k) (inl f)
  Readable-ItemRead name item (present {item = other} {r = r} k t e n) h =
      subst (ItemRead name) (same_item name item other h k) (inr (r, t, e, n))

  pub single_absent :
      (name : Text)
      → boto.get_item tenant_id (feature_resource_id name) table ≡ ok none
      → get_feature_set boto tenant_id name table ≡ err feature_set_not_found
  unfolding get_feature_set feature_set_of
  single_absent name e = rw (e, feature_set_of) refl

  pub item_of_found :
      (name : Text) (r : FeatureSetResponse)
      → Readable name
      → get_feature_set boto tenant_id name table ≡ ok r
      → (item : Item) × Holds boto table (key_of tenant_id name) item
  item_of_found name r (absent e) s =
      absurd (let e' = single_absent name e in ground (arith, e', s))
  item_of_found name r (other_kind {item = item} h f) s = (item, h)
  item_of_found name r (present {item = item} h t e n) s = (item, h)
