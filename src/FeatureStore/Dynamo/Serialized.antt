-- ===== src/FeatureStore/Dynamo/Serialized.antt =====
-- `DynamoDBService.batch_get_feature_sets` with the client that it has, which is that of a boto3
-- resource.
use confidential_ml_feature.Prelude.{ℕ, ◌≡◌, refl, List, ◌∷◌, Text, err, =ₜ-refl}
use confidential_ml_feature.Python.Codes.{codes}
use confidential_ml_feature.FeatureStore.{Tenant, data_store_error}
use confidential_ml_feature.FeatureStore.Attributes.{Attribute, Item, text, dict, end, entry}
use confidential_ml_feature.FeatureStore.Service.{
  ensure_tenant_access, prepare_batch_feature_vectors,
}
use confidential_ml_feature.FeatureStore.Dynamo.{Boto, client_error}
use confidential_ml_feature.FeatureStore.Dynamo.Store.{batch_read, batch_get_feature_sets, dynamo}

-- TypeSerializer makes of a text a mapping from its type; and the client of a resource serializes the
-- keys that it is given, so that a mapping comes to DynamoDB as a value of type map, and DynamoDB
-- refuses a key whose partition key is not of the type of the table's, a string.
pub record IsResource {Table : Type 0} (boto : Boto Table) : Type 0 where
  pub mapped : (s : Text) → boto.serialize (text s) ≡ dict (entry (codes "S") (text s) end)
  pub refused :
      (partition : Item) (range : Attribute) (keys : List (Attribute × Attribute)) (table : Table)
      (retries : ℕ)
      → boto.batch_get_item ((dict partition, range) ∷ keys) table retries ≡ err client_error

module _ {Table : Type 0} (boto : Boto Table) where
  read_refused :
      (tenant_id name : Text) (names : List Text) (table : Table)
      → IsResource boto
      → batch_get_feature_sets boto tenant_id (name ∷ names) table ≡ err data_store_error
  unfolding batch_get_feature_sets batch_read
  read_refused tenant_id name names table law =
      rw (law.mapped tenant_id) (rw (law.refused _ _ _ table 3, batch_read) refl)

  -- Where TypeSerializer makes a mapping of a text, and the client refuses a batch whose first
  -- partition key is a mapping, as that of a boto3 resource does: for a nonempty list of names the
  -- batch read raises DataStoreError, whatever the table holds, and so does
  -- `prepare_batch_feature_vectors` of the feature service for a tenant's own feature sets.
  pub batch_get_feature_sets-refused :
      (tenant : Tenant) (name : Text) (names : List Text) (table : Table)
      → IsResource boto
      → (batch_get_feature_sets boto tenant.tenant_id (name ∷ names) table ≡ err data_store_error)
        × (prepare_batch_feature_vectors (dynamo boto) tenant tenant.tenant_id (name ∷ names) table
            ≡ err data_store_error)
  unfolding prepare_batch_feature_vectors ensure_tenant_access
  batch_get_feature_sets-refused tenant name names table law =
      let refused = read_refused tenant.tenant_id name names table law in
      (refused, rw (=ₜ-refl tenant.tenant_id) (rw refused refl))
