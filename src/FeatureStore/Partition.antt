-- ===== src/FeatureStore/Partition.antt =====
-- `DynamoDBService` as an implementation of the interface `DataStore`: what its reads return.
use confidential_ml_feature.Prelude.{
  ◌≡◌, Option, none, some, List, [], ◌∷◌, Text, Result, ok, err, require, Ensures, Ensures-bind,
  Ensures-ok, arith, All, All-append,
}
use confidential_ml_feature.Python.Codes.{codes}
use confidential_ml_feature.FeatureStore.{
  Tenant, tenant_not_found, FeatureSetResponse, feature_set_not_found,
}
use confidential_ml_feature.FeatureStore.Attributes.{
  from_decimal, Attribute, Item, text, get_attribute,
}
use confidential_ml_feature.FeatureStore.Dynamo.{
  Failure, Boto, allowed, is_kind, tenant_resource_id, feature_resource_id, parse_datetime, int_of,
  as_features, item_at, as_text, item_to_feature_response, feature_set_of, get_feature_set,
  collect_pages, responses, list_feature_sets,
}
use confidential_ml_feature.FeatureStore.Dynamo.Store.{dynamo, tenant_of, get_tenant_record}
use confidential_ml_feature.FeatureStore.Access.{IsPartitioned}

-- The item carries the tenant id of its key.
abbrev pub Owned : Text → Item → Type 0
Owned tenant_id item = get_attribute (codes "tenant_id") item ≡ some (text tenant_id)

abbrev pub OwnedIfAny : Text → Option Item → Type 0
OwnedIfAny tenant_id none = Unit
OwnedIfAny tenant_id (some item) = Owned tenant_id item

-- DynamoDB's reads return items with the partition key asked for.
pub record IsKeyed {Table : Type 0} (boto : Boto Table) : Type 0 where
  pub get :
      (tenant_id resource_id : Text) (table : Table)
      → Ensures (OwnedIfAny tenant_id) (boto.get_item tenant_id resource_id table)
  pub query :
      (tenant_id prefix : Text) (table : Table)
      → All (Ensures (All (Owned tenant_id))) (boto.query_pages tenant_id prefix table)

abbrev Of : Text → FeatureSetResponse → Type 0
Of tenant_id s = s.tenant_id ≡ tenant_id

module _ {Table : Type 0} (boto : Boto Table) (tenant_id : Text) where
  abbrev OfTenant : Tenant → Type 0
  OfTenant t = t.tenant_id ≡ tenant_id

  text_at :
      (item : Item) (v : Attribute) (s : Text)
      → Owned tenant_id item
      → item_at (codes "tenant_id") item ≡ ok v
      → as_text v ≡ ok s
      → s ≡ tenant_id
  unfolding item_at
  text_at item v s h e e' = ground (arith, h)

  item_to_feature_response-Of :
      (item : Item)
      → Owned tenant_id item
      → Ensures (Of tenant_id) (item_to_feature_response boto item)
  unfolding item_to_feature_response
  item_to_feature_response-Of item h =
      let P = Of tenant_id in
      Ensures-bind P (item_at (codes "tenant_id") item) _ (λ tenant at.
        Ensures-bind P (item_at (codes "feature_set_name") item) _ (λ name _.
          Ensures-bind P (item_at (codes "features") item) _ (λ stored _.
            Ensures-bind P (item_at (codes "created_at") item) _ (λ created_text _.
              Ensures-bind P (parse_datetime boto created_text) _ (λ created _.
                Ensures-bind P (item_at (codes "updated_at") item) _ (λ updated_text _.
                  Ensures-bind P (parse_datetime boto updated_text) _ (λ updated _.
                    Ensures-bind P (item_at (codes "version") item) _ (λ number _.
                      Ensures-bind P (int_of boto number) _ (λ revision _.
                        Ensures-bind P (as_text tenant) _ (λ tenant_text is_text.
                          Ensures-bind P (as_text name) _ (λ name_text _.
                            Ensures-bind P (as_features (from_decimal boto.float_of stored)) _
                              (λ xs _. text_at item tenant tenant_text h at is_text))))))))))))

  responses-Of :
      (items : List Item)
      → All (Owned tenant_id) items
      → Ensures (All (Of tenant_id)) (responses boto items)
  unfolding responses
  responses-Of [] h = tt
  responses-Of (item ∷ items) h =
      Ensures-bind (All (Of tenant_id)) (item_to_feature_response boto item) _ (λ r e.
        Ensures-bind (All (Of tenant_id)) (responses boto items) _ (λ rs e'. (
          Ensures-ok (Of tenant_id) _ r (item_to_feature_response-Of item h.0) e,
          Ensures-ok (All (Of tenant_id)) _ rs (responses-Of items h.1) e',
        )))

  collect_pages-Owned :
      (pages : List (Result Failure (List Item)))
      → All (Ensures (All (Owned tenant_id))) pages
      → Ensures (All (Owned tenant_id)) (collect_pages boto pages)
  unfolding collect_pages
  collect_pages-Owned [] h = tt
  collect_pages-Owned (err e ∷ pages) h = tt
  collect_pages-Owned (ok items ∷ pages) h =
      Ensures-bind (All (Owned tenant_id)) (collect_pages boto pages) _ (λ rest e.
        All-append (Owned tenant_id) items rest h.0
          (Ensures-ok (All (Owned tenant_id)) _ rest (collect_pages-Owned pages h.1) e))

  feature_set_of-Of :
      (r : Result Failure (Option Item))
      → Ensures (OwnedIfAny tenant_id) r
      → Ensures (Of tenant_id) (feature_set_of boto r)
  unfolding feature_set_of
  feature_set_of-Of (err e) h = tt
  feature_set_of-Of (ok none) h = tt
  feature_set_of-Of (ok (some item)) h =
      Ensures-bind (Of tenant_id) (require _ feature_set_not_found) _
        (λ u e. item_to_feature_response-Of item h)

  tenant_of-OfTenant :
      (r : Result Failure (Option Item))
      → Ensures (OwnedIfAny tenant_id) r
      → Ensures OfTenant (tenant_of boto r)
  unfolding tenant_of
  tenant_of-OfTenant (err e) h = tt
  tenant_of-OfTenant (ok none) h = tt
  tenant_of-OfTenant (ok (some item)) h =
      Ensures-bind OfTenant
        (require (is_kind (codes "TENANT") (get_attribute (codes "entity_type") item))
          tenant_not_found)
        _
        (λ u _. Ensures-bind OfTenant (item_at (codes "tenant_id") item) _ (λ tenant at.
          Ensures-bind OfTenant (item_at (codes "api_key") item) _ (λ key _.
            Ensures-bind OfTenant (item_at (codes "created_at") item) _ (λ created_text _.
              Ensures-bind OfTenant (parse_datetime boto created_text) _ (λ created _.
                Ensures-bind OfTenant (allowed (get_attribute (codes "allowed_models") item)) _
                  (λ models _. Ensures-bind OfTenant (as_text tenant) _ (λ tenant_text is_text.
                    Ensures-bind OfTenant (as_text key) _
                      (λ key_text _. text_at item tenant tenant_text h at is_text))))))))

-- Over a DynamoDB whose reads return items with the partition key asked for: the feature sets that
-- `get_feature_set` and `list_feature_sets` of the data layer return are of the tenant asked for, and
-- the record that `get_tenant_record` returns is that tenant's.
pub dynamo-IsPartitioned :
    {Table : Type 0} (boto : Boto Table) → IsKeyed boto → IsPartitioned (dynamo boto)
unfolding get_feature_set list_feature_sets get_tenant_record
dynamo-IsPartitioned boto law = record {
  get = λ tenant_id name table.
      feature_set_of-Of boto tenant_id (boto.get_item tenant_id (feature_resource_id name) table)
        (law.get tenant_id (feature_resource_id name) table);
  listed = λ tenant_id table.
      let pages = boto.query_pages tenant_id (codes "FEATURE_SET#") table in
      Ensures-bind (All (Of tenant_id)) (collect_pages boto pages) _ (λ items e.
        responses-Of boto tenant_id items (
          Ensures-ok (All (Owned tenant_id)) _ items
            (collect_pages-Owned boto tenant_id pages
              (law.query tenant_id (codes "FEATURE_SET#") table))
            e));
  recorded = λ tenant_id table.
      tenant_of-OfTenant boto tenant_id
        (boto.get_item tenant_id (tenant_resource_id tenant_id) table)
        (law.get tenant_id (tenant_resource_id tenant_id) table);
}
