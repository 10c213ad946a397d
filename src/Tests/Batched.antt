-- ===== src/Tests/Batched.antt =====
-- A table with a feature set and an item of another kind, which answers a batch key by key.
use confidential_ml_feature.Prelude.{
  ℕ, ◌≡◌, refl, true, List, Option, none, some, [], ◌∷◌, map, Text, Result, ok, err, ◌=ₜ◌,
  if◌then◌else◌,
}
use mathlib.Core.List.{Memᴰ}
use mathlib.Core.List.Memᴰ as Memᴰ
use confidential_ml_feature.Python.Codes.{codes}
use confidential_ml_feature.FeatureStore.{FeatureSetResponse, Tenant, data_store_error}
use confidential_ml_feature.FeatureStore.Attributes.{
  Attribute, Item, text, decimal, dict, end, entry, get_attribute, from_decimal,
}
use confidential_ml_feature.FeatureStore.Dynamo.{
  Failure, Boto, client_error, get_feature_set, feature_resource_id, item_to_feature_response,
  item_at, parse_datetime, int_of, float_items, feature_set_of,
}
use confidential_ml_feature.FeatureStore.Dynamo.Store.{batch_get_feature_sets, dynamo}
use confidential_ml_feature.FeatureStore.Dynamo.Singly.{found_singly}
use confidential_ml_feature.FeatureStore.Service.{prepare_batch_feature_vectors}
use confidential_ml_feature.FeatureStore.Dynamo.Serialized.{batch_get_feature_sets-refused}

abbrev kept : Item
kept = entry (codes "tenant_id") (text (codes "a")) (
    entry (codes "entity_type") (text (codes "FEATURE_SET")) (
      entry (codes "feature_set_name") (text (codes "s")) (
        entry (codes "features") (dict (entry (codes "x") (decimal 4) end)) (
          entry (codes "created_at") (text (5 ∷ [])) (
            entry (codes "updated_at") (text (6 ∷ []))
              (entry (codes "version") (decimal 1) end))))))

abbrev other : Item
other = entry (codes "entity_type") (text (codes "TENANT")) end

abbrev items : Text → Option Item
items resource_id =
    if resource_id =ₜ feature_resource_id (codes "s")
    then some kept
    else if resource_id =ₜ feature_resource_id (codes "u")
    then some other
    else none

abbrev listed : Option Item → List Item
listed none = []
listed (some item) = item ∷ []

-- Serialized under one type name for all types.
abbrev raw_item : Item → Item
raw_item end = end
raw_item (entry k v item) = entry k (dict (entry (codes "S") v end)) (raw_item item)

abbrev plain_value : Attribute → Option Attribute
plain_value (dict (entry kind v item)) = some v
plain_value _ = none

abbrev text_of : Option Attribute → Text
text_of (some (text s)) = s
text_of _ = []

abbrev first_of : List (Attribute × Attribute) → List Item × List (Attribute × Attribute)
first_of [] = ([], [])
first_of (key ∷ keys) = (map raw_item (listed (items (text_of (plain_value key.1)))), keys)

abbrev first_code : Text → Option ℕ
first_code [] = none
first_code (c ∷ s) = some c

abbrev number : Attribute → Option ℕ
number (decimal n) = some n
number _ = none

abbrev boto : Boto ℕ
boto = record {
  now = λ table. 0;
  put_item = λ item condition table. (err client_error, table);
  get_item = λ tenant_id resource_id table. ok (items resource_id);
  delete_item = λ tenant_id resource_id condition table. (err client_error, table);
  query_pages = λ tenant_id prefix table. [];
  batch_get_item = λ keys table retries. ok (first_of keys);
  serialize = λ v. dict (entry (codes "S") v end);
  deserialize = plain_value;
  decimal_of = λ x. x;
  float_of = λ x. x;
  iso = λ t. t ∷ [];
  from_iso = first_code;
  to_int = number;
  truthy = λ v. true;
}

abbrev names : List Text
names = codes "t" ∷ codes "u" ∷ codes "s" ∷ []

abbrev response : FeatureSetResponse
response = record {
  tenant_id = codes "a";
  feature_set_name = codes "s";
  features = (codes "x", 4) ∷ [];
  created_at = 5;
  updated_at = 6;
  version = 1;
}

found_one : found_singly boto 0 (codes "a") names ≡ response ∷ []
unfolding found_singly get_feature_set feature_set_of item_to_feature_response item_at get_attribute
    parse_datetime int_of from_decimal float_items feature_resource_id ◌=ₜ◌
found_one = refl

-- A client that refuses a mapping as the partition key.
abbrev refusing :
    List (Attribute × Attribute) → ℕ → ℕ → Result Failure (List Item × List (Attribute × Attribute))
refusing ((dict partition, range) ∷ keys) table retries = err client_error
refusing keys table retries = ok ([], [])

abbrev resource : Boto ℕ
resource = record boto { batch_get_item = refusing }

abbrev tenant : Tenant
tenant = record {
  tenant_id = codes "a";
  api_key = codes "k";
  created_at = 1;
  is_active = true;
  allowed_models = [];
}

batch_get_feature_sets-refused_example :
    (batch_get_feature_sets resource (codes "a") (codes "s" ∷ []) 0 ≡ err data_store_error)
    × (prepare_batch_feature_vectors (dynamo resource) tenant (codes "a") (codes "s" ∷ []) 0
        ≡ err data_store_error)
batch_get_feature_sets-refused_example =
    batch_get_feature_sets-refused resource tenant (codes "s") [] 0
      (record { mapped = λ s. refl; refused = λ partition range keys table retries. refl })
