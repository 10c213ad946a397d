-- ===== src/FeatureStore/Dynamo/Store.antt =====
-- The reads of many sets and of tenants, and `DynamoDBService` as the data store of the services.
use confidential_ml_feature.Prelude.{
  ℕ, zero, suc, Bool, true, Option, none, some, List, [], ◌∷◌, ◌++◌, map, Text, Result, ok, err,
  ◌>>=◌, ◌>>◌, require, if◌then◌else◌,
}
use confidential_ml_feature.Python.Codes.{codes}
use confidential_ml_feature.OrderedDict
use confidential_ml_feature.FeatureStore.{
  Tenant, FeatureSetResponse, Exception, DataStore, tenant_not_found, data_store_error, type_error,
}
use confidential_ml_feature.FeatureStore.Attributes.{
  Attribute, Item, text, end, entry, get_attribute,
}
use confidential_ml_feature.FeatureStore.Dynamo.{
  Failure, Boto, feature_resource_id, tenant_resource_id, item_at, is_kind, as_text, allowed,
  parse_datetime, item_to_feature_response, put_feature_set, get_feature_set, list_feature_sets,
  delete_feature_set,
}

-- bool(item.get("is_active", True))
abbrev active : (Attribute → Bool) → Option Attribute → Bool
active truthy none = true
active truthy (some v) = truthy v

abbrev pub or_type_error : Option Attribute → Result Exception Attribute
or_type_error none = err type_error
or_type_error (some v) = ok v

module _ {Table : Type 0} (boto : Boto Table) where
  -- The loop of `batch_get_feature_sets`, with the retries that are left. Each answer is of the
  -- keys asked for and of those that it leaves unprocessed.
  unfoldable pub batch_read :
      ℕ → List (Attribute × Attribute) → Table → Result Exception (List Item)
  batch_read retries [] table = ok []
  batch_read zero (key ∷ keys) table = elim (boto.batch_get_item (key ∷ keys) table 0) [
    | err e ↦ err data_store_error
    | ok answer ↦ elim answer.1 [ [] ↦ ok answer.0 | k ∷ ks ↦ err data_store_error ]
  ]
  batch_read (suc retries) (key ∷ keys) table =
      elim (boto.batch_get_item (key ∷ keys) table (suc retries)) [
        | err e ↦ err data_store_error
        | ok answer ↦ do rest ← batch_read retries answer.1 table; ok (answer.0 ++ rest)
      ]

  -- `_deserialize_item`
  unfoldable pub deserialize_item : Item → Result Exception Item
  deserialize_item end = ok end
  deserialize_item (entry k v item) = do
    w ← or_type_error (boto.deserialize v)
    rest ← deserialize_item item
    ok (entry k w rest)

  unfoldable pub deserialize_items : List Item → Result Exception (List Item)
  unfolding deserialize_item
  deserialize_items [] = ok []
  deserialize_items (item ∷ items) = do
    plain ← deserialize_item item
    rest ← deserialize_items items
    ok (plain ∷ rest)

  -- The key of a requested feature set.
  abbrev pub serialized : Text × Text → Attribute × Attribute
  serialized key = (boto.serialize (text key.0), boto.serialize (text key.1))

  -- The responses of the feature sets among the items, under their names.
  unfoldable pub by_name :
      List Item
      → List (Text × FeatureSetResponse)
      → Result Exception (List (Text × FeatureSetResponse))
  by_name [] found = ok found
  by_name (item ∷ items) found =
      let here = item_to_feature_response boto item in
      let skipped = by_name items found in
      if is_kind (codes "FEATURE_SET") (get_attribute (codes "entity_type") item)
      then (do r ← here; by_name items (OrderedDict.insert r.feature_set_name r found))
      else skipped

  -- [by_name[name] for name in feature_set_names if name in by_name]
  unfoldable pub in_order : List Text → List (Text × FeatureSetResponse) → List FeatureSetResponse
  in_order [] found = []
  in_order (name ∷ names) found = elim (OrderedDict.get name found) [
    | none ↦ in_order names found
    | some r ↦ r ∷ in_order names found
  ]

  unfoldable pub batch_get_feature_sets :
      Text → List Text → Table → Result Exception (List FeatureSetResponse)
  batch_get_feature_sets tenant_id names table = do
    raw_items ←
        batch_read 3 (map (λ name. serialized (tenant_id, feature_resource_id name)) names) table
    items ← deserialize_items raw_items
    found ← by_name items []
    ok (in_order names found)

  -- The `Tenant` of what `get_item` answers.
  unfoldable pub tenant_of : Result Failure (Option Item) → Result Exception Tenant
  tenant_of (err e) = err data_store_error
  tenant_of (ok none) = err tenant_not_found
  tenant_of (ok (some item)) = do
    require (is_kind (codes "TENANT") (get_attribute (codes "entity_type") item)) tenant_not_found
    id ← item_at (codes "tenant_id") item
    key ← item_at (codes "api_key") item
    created_text ← item_at (codes "created_at") item
    created ← parse_datetime boto created_text
    models ← allowed (get_attribute (codes "allowed_models") item)
    id_text ← as_text id
    key_text ← as_text key
    ok (record {
      tenant_id = id_text;
      api_key = key_text;
      created_at = created;
      is_active = active boto.truthy (get_attribute (codes "is_active") item);
      allowed_models = models;
    })

  unfoldable pub get_tenant_record : Text → Table → Result Exception Tenant
  get_tenant_record tenant_id table =
      tenant_of (boto.get_item tenant_id (tenant_resource_id tenant_id) table)

  abbrev pub dynamo : DataStore Table
  dynamo = record {
    put_feature_set = put_feature_set boto;
    get_feature_set = get_feature_set boto;
    list_feature_sets = list_feature_sets boto;
    delete_feature_set = delete_feature_set boto;
    batch_get_feature_sets = batch_get_feature_sets;
    get_tenant_record = get_tenant_record;
  }
