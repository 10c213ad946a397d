-- ===== src/FeatureStore/Dynamo.antt =====
-- feature_store/services/dynamo_service.py: `DynamoDBService` over the calls of boto3, which are
-- parameters, as are the clock and the conversions of Python's library.
pub mod Answers
pub mod Singly
pub mod ByName
pub mod Batch
pub mod Serialized
pub mod Store
pub mod Table
pub mod RoundTrip
use confidential_ml_feature.Prelude.{
  ℕ, zero, suc, Bool, true, false, Option, none, some, List, [], ◌∷◌, ◌++◌, map, Text, Result, ok,
  err, ◌>>=◌, ◌>>◌, require, if◌then◌else◌, ◌=ₜ◌,
}
use confidential_ml_feature.Python.Codes.{codes}
use confidential_ml_feature.OrderedDict
use confidential_ml_feature.FeatureStore.{
  Tenant, FeatureSetCreate, FeatureSetResponse, Exception, DataStore, feature_set_conflict,
  feature_set_not_found, tenant_not_found, data_store_error, key_error, type_error, value_error,
  validation_error,
}
use confidential_ml_feature.FeatureStore.Attributes.{
  Attribute, Attributes, Item, text, boolean, int, decimal, float, list, dict, nil, cons, end,
  entry, get_attribute, to_decimal, from_decimal,
}

-- What a call of boto3 raises.
pub data Failure : Type 0 where
  conditional_check_failed client_error botocore_error : Failure

-- The ConditionExpression of a write: `Attr(_).exists()`, `Attr(_).not_exists()`, and `&`.
pub data Condition : Type 0 where
  exists not_exists : Text → Condition
  both : Condition → Condition → Condition

-- The calls of boto3 on the table, which are tenant id and resource id, the clock, and Python's
-- conversions. A write takes its condition, if it is given one. `serialize` and `deserialize` are those
-- of TypeSerializer and of TypeDeserializer, with `none` for an exception. `query_pages` is what the successive calls of `query` for a tenant and a prefix of
-- the resource id answer, up to the one without a `LastEvaluatedKey`.
pub record Boto (Table : Type 0) : Type 0 where
  pub now : Table → ℕ
  pub put_item : Item → Option Condition → Table → Result Failure (Unit {0}) × Table
  pub get_item : Text → Text → Table → Result Failure (Option Item)
  pub delete_item : Text → Text → Option Condition → Table → Result Failure (Unit {0}) × Table
  pub query_pages : Text → Text → Table → List (Result Failure (List Item))
  pub batch_get_item :
      List (Attribute × Attribute)
      → Table
      → ℕ
      → Result Failure (List Item × List (Attribute × Attribute))
  pub serialize : Attribute → Attribute
  pub deserialize : Attribute → Option Attribute
  pub decimal_of : ℕ → ℕ
  pub float_of : ℕ → ℕ
  pub iso : ℕ → Text
  pub from_iso : Text → Option ℕ
  pub to_int : Attribute → Option ℕ
  pub truthy : Attribute → Bool

-- `_feature_resource_id` and `_tenant_resource_id`
unfoldable pub feature_resource_id : Text → Text
feature_resource_id name = codes "FEATURE_SET#" ++ name

unfoldable pub tenant_resource_id : Text → Text
tenant_resource_id tenant_id = codes "TENANT#" ++ tenant_id

-- item[name]
unfoldable pub item_at : Text → Item → Result Exception Attribute
item_at name item = elim (get_attribute name item) [ none ↦ err key_error | some v ↦ ok v ]

-- item.get("entity_type") == kind
abbrev pub is_kind : Text → Option Attribute → Bool
is_kind kind (some (text s)) = s =ₜ kind
is_kind kind _ = false

-- What pydantic asks of a `str` and of a `dict[str, float]`.
abbrev pub as_text : Attribute → Result Exception Text
as_text (text s) = ok s
as_text _ = err validation_error

unfoldable pub float_items : Item → Result Exception (List (Text × ℕ))
float_items end = ok []
float_items (entry name (float x) item) = do xs ← float_items item; ok ((name, x) ∷ xs)
float_items (entry name v item) = err validation_error

abbrev pub as_features : Attribute → Result Exception (List (Text × ℕ))
as_features (dict item) = float_items item
as_features _ = err validation_error

-- What pydantic asks of a `list[str]`.
unfoldable pub text_list : Attributes → Result Exception (List Text)
text_list nil = ok []
text_list (cons v vs) = do s ← as_text v; ss ← text_list vs; ok (s ∷ ss)

-- list(_) of a dict.
unfoldable pub item_names : Item → List Text
item_names end = []
item_names (entry k v item) = k ∷ item_names item

-- list(item.get("allowed_models", []))
abbrev pub allowed : Option Attribute → Result Exception (List Text)
allowed none = ok []
allowed (some (list vs)) = text_list vs
allowed (some (text s)) = ok (map (λ c. c ∷ []) s)
allowed (some (dict item)) = ok (item_names item)
allowed (some v) = err type_error

unfoldable pub item_of_features : List (Text × ℕ) → Item
item_of_features [] = end
item_of_features ((name, x) ∷ features) = entry name (float x) (item_of_features features)

module _ {Table : Type 0} (boto : Boto Table) where
  -- `_parse_datetime`, of what a table holds, which is no datetime.
  unfoldable pub parse_datetime : Attribute → Result Exception ℕ
  parse_datetime (text s) = elim (boto.from_iso s) [ none ↦ err data_store_error | some t ↦ ok t ]
  parse_datetime v = err data_store_error

  -- int(_)
  unfoldable pub int_of : Attribute → Result Exception ℕ
  int_of v = elim (boto.to_int v) [ none ↦ err value_error | some n ↦ ok n ]

  -- `_item_to_feature_response`: the fields are read in order, and validated after that.
  unfoldable pub item_to_feature_response : Item → Result Exception FeatureSetResponse
  item_to_feature_response item = do
    tenant ← item_at (codes "tenant_id") item
    name ← item_at (codes "feature_set_name") item
    stored ← item_at (codes "features") item
    created_text ← item_at (codes "created_at") item
    created ← parse_datetime created_text
    updated_text ← item_at (codes "updated_at") item
    updated ← parse_datetime updated_text
    number ← item_at (codes "version") item
    revision ← int_of number
    tenant_text ← as_text tenant
    name_text ← as_text name
    xs ← as_features (from_decimal boto.float_of stored)
    ok (record {
      tenant_id = tenant_text;
      feature_set_name = name_text;
      features = xs;
      created_at = created;
      updated_at = updated;
      version = revision;
    })

  -- The item that `put_feature_set` stores.
  unfoldable pub feature_item : FeatureSetCreate → ℕ → Item
  feature_item feature_set now = entry (codes "tenant_id") (text feature_set.tenant_id) (
      entry (codes "resource_id") (text (feature_resource_id feature_set.feature_set_name)) (
        entry (codes "entity_type") (text (codes "FEATURE_SET")) (
          entry (codes "feature_set_name") (text feature_set.feature_set_name) (
            entry (codes "features")
              (to_decimal boto.decimal_of (dict (item_of_features feature_set.features)))
              (entry (codes "created_at") (text (boto.iso now)) (
                entry (codes "updated_at") (text (boto.iso now))
                  (entry (codes "version") (int 1) end)))))))

  -- The `except` clauses of `put_feature_set` and of `delete_feature_set`.
  unfoldable pub raised : Exception → Failure → Exception
  raised on_condition conditional_check_failed = on_condition
  raised on_condition client_error = data_store_error
  raised on_condition botocore_error = data_store_error

  unfoldable pub stored :
      Item → Result Failure (Unit {0}) × Table → Result Exception FeatureSetResponse × Table
  stored item (ok u, table) = (item_to_feature_response item, table)
  stored item (err e, table) = (err (raised feature_set_conflict e), table)

  unfoldable pub put_feature_set :
      FeatureSetCreate → Table → Result Exception FeatureSetResponse × Table
  put_feature_set feature_set table =
      let item = feature_item feature_set (boto.now table) in
      stored item (
        boto.put_item item
          (some (both (not_exists (codes "tenant_id")) (not_exists (codes "resource_id")))) table)

  -- The response for what `get_item` answers.
  unfoldable pub feature_set_of : Result Failure (Option Item) → Result Exception FeatureSetResponse
  feature_set_of (err e) = err data_store_error
  feature_set_of (ok none) = err feature_set_not_found
  feature_set_of (ok (some item)) = do
    require (is_kind (codes "FEATURE_SET") (get_attribute (codes "entity_type") item))
        feature_set_not_found
    item_to_feature_response item

  unfoldable pub get_feature_set : Text → Text → Table → Result Exception FeatureSetResponse
  get_feature_set tenant_id name table =
      feature_set_of (boto.get_item tenant_id (feature_resource_id name) table)

  -- The loop of `list_feature_sets` over the pages.
  unfoldable pub collect_pages : List (Result Failure (List Item)) → Result Exception (List Item)
  collect_pages [] = ok []
  collect_pages (err e ∷ pages) = err data_store_error
  collect_pages (ok items ∷ pages) = do rest ← collect_pages pages; ok (items ++ rest)

  unfoldable pub responses : List Item → Result Exception (List FeatureSetResponse)
  responses [] = ok []
  responses (item ∷ items) = do r ← item_to_feature_response item; rs ← responses items; ok (r ∷ rs)

  unfoldable pub list_feature_sets : Text → Table → Result Exception (List FeatureSetResponse)
  list_feature_sets tenant_id table = do
    items ← collect_pages (boto.query_pages tenant_id (codes "FEATURE_SET#") table)
    responses items

  unfoldable pub deleted : Result Failure (Unit {0}) × Table → Result Exception (Unit {0}) × Table
  deleted (ok u, table) = (ok tt, table)
  deleted (err e, table) = (err (raised feature_set_not_found e), table)

  unfoldable pub delete_feature_set : Text → Text → Table → Result Exception (Unit {0}) × Table
  delete_feature_set tenant_id name table = deleted (
      boto.delete_item tenant_id (feature_resource_id name)
        (some (both (exists (codes "tenant_id")) (exists (codes "resource_id")))) table)
