-- ===== src/FeatureStore/Dynamo/RoundTrip.antt =====
-- `DynamoDBService.put_feature_set` and then `get_feature_set`: what is created is what is read.
use confidential_ml_feature.Prelude.{
  false, ℕ, ◌≡◌, refl, ap, ◌∙◌, ◌=ₜ◌, some, List, [], ◌∷◌, Text, Result, ok, err,
}
use confidential_ml_feature.Python.Codes.{codes}
use confidential_ml_feature.FeatureStore.{
  FeatureSetCreate, FeatureSetResponse, feature_set_conflict,
}
use confidential_ml_feature.FeatureStore.Attributes.{
  Attribute, Item, text, int, decimal, dict, end, entry, get_attribute, to_decimal, from_decimal,
  from_decimal-to_decimal, HasNoDecimal, ItemHasNoDecimal, items_to_decimal,
}
use confidential_ml_feature.FeatureStore.Dynamo.{
  Condition, not_exists, both, Failure, Boto, feature_resource_id, item_at, is_kind, as_features,
  float_items, item_of_features, parse_datetime, int_of, item_to_feature_response, feature_item,
  raised, stored, put_feature_set, feature_set_of, get_feature_set,
}
use confidential_ml_feature.FeatureStore.Dynamo.Table.{item_as_read, meets, IsTable}

-- The feature set as it was created at a time.
abbrev pub response_of : FeatureSetCreate → ℕ → FeatureSetResponse
response_of feature_set now = record {
  tenant_id = feature_set.tenant_id;
  feature_set_name = feature_set.feature_set_name;
  features = feature_set.features;
  created_at = now;
  updated_at = now;
  version = 1;
}

features_plain : (features : List (Text × ℕ)) → ItemHasNoDecimal (item_of_features features)
unfolding item_of_features HasNoDecimal
features_plain [] = tt
features_plain ((name, x) ∷ features) = (tt, features_plain features)

float_items-item_of_features :
    (features : List (Text × ℕ)) → float_items (item_of_features features) ≡ ok features
unfolding float_items item_of_features
float_items-item_of_features [] = refl
float_items-item_of_features ((name, x) ∷ features) =
    rw (float_items-item_of_features features) refl

item_as_read-features :
    (of_int decimal_of : ℕ → ℕ) (features : List (Text × ℕ))
    → item_as_read of_int (items_to_decimal decimal_of (item_of_features features))
      ≡ items_to_decimal decimal_of (item_of_features features)
unfolding item_as_read item_of_features to_decimal
item_as_read-features of_int decimal_of [] = refl
item_as_read-features of_int decimal_of ((name, x) ∷ features) =
    ap (entry name (decimal (decimal_of x))) (item_as_read-features of_int decimal_of features)

module _ {Table : Type 0} (boto : Boto Table) (of_int : ℕ → ℕ) (law : IsTable boto of_int)
    (feature_set : FeatureSetCreate) where
  -- The condition of `put_feature_set`, and its call of `put_item`.
  abbrev is_new : Condition
  is_new = both (not_exists (codes "tenant_id")) (not_exists (codes "resource_id"))

  abbrev put_new : Table → Result Failure (Unit {0}) × Table
  put_new table = boto.put_item (feature_item boto feature_set (boto.now table)) (some is_new) table

  pair_at : (r : Result Failure (Unit {0}) × Table) → r.0 ≡ ok tt → r ≡ (ok tt, r.1)
  pair_at r e = ap (λ x. (x, r.1)) e

  -- The item, with this version.
  abbrev shape : ℕ → Attribute → Item
  shape now version = entry (codes "tenant_id") (text feature_set.tenant_id) (
      entry (codes "resource_id") (text (feature_resource_id feature_set.feature_set_name)) (
        entry (codes "entity_type") (text (codes "FEATURE_SET")) (
          entry (codes "feature_set_name") (text feature_set.feature_set_name) (
            entry (codes "features")
              (to_decimal boto.decimal_of (dict (item_of_features feature_set.features)))
              (entry (codes "created_at") (text (boto.iso now)) (
                entry (codes "updated_at") (text (boto.iso now))
                  (entry (codes "version") version end)))))))

  features_read :
      as_features (
        from_decimal boto.float_of
          (to_decimal boto.decimal_of (dict (item_of_features feature_set.features))))
      ≡ ok feature_set.features
  unfolding HasNoDecimal
  features_read =
      ap as_features (
        from_decimal-to_decimal boto.decimal_of boto.float_of law.exact
          (dict (item_of_features feature_set.features)) (features_plain feature_set.features))
      ∙ float_items-item_of_features feature_set.features

  shape_read :
      (now : ℕ) (version : Attribute)
      → boto.to_int version ≡ some 1
      → item_to_feature_response boto (shape now version) ≡ ok (response_of feature_set now)
  unfolding item_to_feature_response item_at get_attribute ◌=ₜ◌ parse_datetime int_of
  shape_read now version e =
      rw (law.dated now, item_to_feature_response, parse_datetime)
        (rw (e, int_of) (rw (features_read, as_features) refl))

  read_back :
      (now : ℕ)
      → item_as_read of_int (feature_item boto feature_set now) ≡ shape now (decimal (of_int 1))
  unfolding item_as_read feature_item to_decimal
  read_back now =
      ap
        (λ fs. entry (codes "tenant_id") (text feature_set.tenant_id) (
          entry (codes "resource_id") (text (feature_resource_id feature_set.feature_set_name)) (
            entry (codes "entity_type") (text (codes "FEATURE_SET")) (
              entry (codes "feature_set_name") (text feature_set.feature_set_name) (
                entry (codes "features") (dict fs) (
                  entry (codes "created_at") (text (boto.iso now)) (
                    entry (codes "updated_at") (text (boto.iso now))
                      (entry (codes "version") (decimal (of_int 1)) end))))))))
        (item_as_read-features of_int boto.decimal_of feature_set.features)

  named :
      (now : ℕ)
      → get_attribute (codes "tenant_id") (feature_item boto feature_set now)
        ≡ some (text feature_set.tenant_id)
  unfolding feature_item get_attribute ◌=ₜ◌
  named now = refl

  keyed :
      (now : ℕ)
      → get_attribute (codes "resource_id") (feature_item boto feature_set now)
        ≡ some (text (feature_resource_id feature_set.feature_set_name))
  unfolding feature_item get_attribute ◌=ₜ◌
  keyed now = refl

  put_returns :
      (table : Table)
      → (put_new table).0 ≡ ok tt
      → put_feature_set boto feature_set table
        ≡ (ok (response_of feature_set (boto.now table)), (put_new table).1)
  unfolding put_feature_set stored feature_item
  put_returns table e =
      ap (stored boto (feature_item boto feature_set (boto.now table))) (pair_at (put_new table) e)
      ∙ ap (λ r. (r, (put_new table).1)) (shape_read (boto.now table) (int 1) (law.int_read 1))

  got :
      (table : Table)
      → (put_new table).0 ≡ ok tt
      → get_feature_set boto feature_set.tenant_id feature_set.feature_set_name (put_new table).1
        ≡ ok (response_of feature_set (boto.now table))
  unfolding get_feature_set feature_set_of is_kind get_attribute ◌=ₜ◌
  got table e =
      let now = boto.now table in
      rw
        (law.kept (feature_item boto feature_set now) (some is_new) table feature_set.tenant_id
          (feature_resource_id feature_set.feature_set_name) (named now) (keyed now) e)
        (rw (read_back now) (shape_read now (decimal (of_int 1)) (law.decimal_read 1)))

  not_new :
      (now : ℕ)
      → meets is_new (some (item_as_read of_int (feature_item boto feature_set now))) ≡ false
  unfolding feature_item get_attribute ◌=ₜ◌ item_as_read
  not_new now = refl

  put_again :
      (again : List (Text × ℕ)) (table : Table)
      → (put_new table).0 ≡ ok tt
      → put_feature_set boto (record feature_set { features = again }) (put_new table).1
        ≡ (err feature_set_conflict, (put_new table).1)
  unfolding put_feature_set stored raised feature_item get_attribute ◌=ₜ◌
  put_again again table e =
      let there = (put_new table).1 in
      let resource_id = feature_resource_id feature_set.feature_set_name in
      let present =
        law.kept (feature_item boto feature_set (boto.now table)) (some is_new) table
          feature_set.tenant_id resource_id (named (boto.now table)) (keyed (boto.now table)) e in
      let item = feature_item boto (record feature_set { features = again }) (boto.now there) in
      ap (stored boto item) (
        law.refused item is_new _ there feature_set.tenant_id resource_id refl refl present
          (not_new (boto.now table)))

  -- Over a table that keeps what is put, refuses a put whose condition is not met by what is under its
  -- key, and reads texts of floats, times and ints back: if the put is done, the feature set that was given, with the time of
  -- the clock and version 1, is what the call returns and what reading it under its name returns
  -- after that; and to create it again, whatever its features, raises a conflict and changes nothing.
  pub get_feature_set-put_feature_set :
      (again : List (Text × ℕ)) (table : Table)
      → (put_new table).0 ≡ ok tt
      → ((put_feature_set boto feature_set table).0 ≡ ok (response_of feature_set (boto.now table)))
        × (get_feature_set boto feature_set.tenant_id feature_set.feature_set_name
              (put_feature_set boto feature_set table).1
            ≡ ok (response_of feature_set (boto.now table)))
        × (put_feature_set boto
              (record feature_set { features = again })
              (put_feature_set boto feature_set table).1
            ≡ (err feature_set_conflict, (put_feature_set boto feature_set table).1))
  get_feature_set-put_feature_set again table e =
      let put = put_returns table e in
      (ap (λ r. r.0) put, rw put (got table e), rw put (put_again again table e))
