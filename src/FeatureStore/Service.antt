-- ===== src/FeatureStore/Service.antt =====
-- `FeatureService`: the tenant check in front of each operation of the data store, and the feature
-- vectors.
use confidential_ml_feature.Prelude.{
  ℕ, Bool, true, false, not, ltb, Option, some, List, [], ◌∷◌, map, Text, Result, ok, err, ◌>>=◌,
  ◌>>◌, require, if◌then◌else◌, ◌=ₜ◌,
}
use confidential_ml_feature.OrderedDict
use confidential_ml_feature.FeatureStore.{
  Tenant, FeatureSetCreate, FeatureSetResponse, InferenceRequest, Exception, DataStore,
  forbidden_access, no_features,
}

-- Python's order on strings, by code point.
unfoldable pub text_leb : Text → Text → Bool
text_leb [] t = true
text_leb (x ∷ s) [] = false
text_leb (x ∷ s) (y ∷ t) =
    let rest = text_leb s t in if ltb x y then true else if ltb y x then false else rest

unfoldable pub insert_sorted : Text × ℕ → List (Text × ℕ) → List (Text × ℕ)
insert_sorted e [] = e ∷ []
insert_sorted e (f ∷ fs) =
    let rest = insert_sorted e fs in if text_leb e.0 f.0 then e ∷ f ∷ fs else f ∷ rest

-- sorted(_, key=lambda item: item[0])
unfoldable pub sort_items : List (Text × ℕ) → List (Text × ℕ)
sort_items [] = []
sort_items (e ∷ es) = insert_sorted e (sort_items es)

-- `not features`, for a dict.
abbrev lacks_features : List (Text × ℕ) → Bool
lacks_features [] = true
lacks_features (e ∷ es) = false

-- The vector of a feature set: its values, by name.
unfoldable pub feature_vector : List (Text × ℕ) → List ℕ
feature_vector features = map (λ (e : Text × ℕ). e.1) (sort_items features)

-- `_ensure_tenant_access`
unfoldable pub ensure_tenant_access : Text → Text → Result Exception (Unit {0})
ensure_tenant_access authenticated requested = require (authenticated =ₜ requested) forbidden_access

-- requested_tenant_id or authenticated_tenant.tenant_id
unfoldable pub requested_or : Option Text → Text → Text
requested_or (some (c ∷ s)) own = c ∷ s
requested_or _ own = own

-- The vectors of the sets found, under their names.
unfoldable pub vectors_by_name :
    List FeatureSetResponse → List (Text × List ℕ) → List (Text × List ℕ)
vectors_by_name [] vectors = vectors
vectors_by_name (s ∷ sets) vectors =
    vectors_by_name sets (OrderedDict.insert s.feature_set_name (feature_vector s.features) vectors)

-- An operation that changes the table, behind the tenant check.
unfoldable pub guarded {ℓ} :
    {Table : Type 0} {A : Type ℓ}
    → Result Exception (Unit {0})
    → (Table → Result Exception A × Table)
    → Table
    → Result Exception A × Table
guarded (ok u) operation table = operation table
guarded (err e) operation table = (err e, table)

module _ {Table : Type 0} (store : DataStore Table) where
  unfoldable pub create_feature_set :
      Tenant → FeatureSetCreate → Table → Result Exception FeatureSetResponse × Table
  create_feature_set tenant payload table =
      guarded (ensure_tenant_access tenant.tenant_id payload.tenant_id)
        (store.put_feature_set payload) table

  unfoldable pub get_feature_set :
      Tenant → Text → Option Text → Table → Result Exception FeatureSetResponse
  get_feature_set tenant name requested table = do
    ensure_tenant_access tenant.tenant_id (requested_or requested tenant.tenant_id)
    store.get_feature_set (requested_or requested tenant.tenant_id) name table

  unfoldable pub list_feature_sets :
      Tenant → Option Text → Table → Result Exception (List FeatureSetResponse)
  list_feature_sets tenant requested table = do
    ensure_tenant_access tenant.tenant_id (requested_or requested tenant.tenant_id)
    store.list_feature_sets (requested_or requested tenant.tenant_id) table

  unfoldable pub delete_feature_set :
      Tenant → Text → Option Text → Table → Result Exception (Unit {0}) × Table
  delete_feature_set tenant name requested table =
      guarded (ensure_tenant_access tenant.tenant_id (requested_or requested tenant.tenant_id))
        (store.delete_feature_set (requested_or requested tenant.tenant_id) name) table

  unfoldable pub prepare_feature_vector :
      Tenant → InferenceRequest → Table → Result Exception (List ℕ)
  prepare_feature_vector tenant request table = do
    ensure_tenant_access tenant.tenant_id request.tenant_id
    feature_set ← store.get_feature_set request.tenant_id request.feature_set_name table
    require (not (lacks_features feature_set.features)) no_features
    ok (feature_vector feature_set.features)

  unfoldable pub prepare_batch_feature_vectors :
      Tenant → Text → List Text → Table → Result Exception (List (Text × List ℕ))
  prepare_batch_feature_vectors tenant tenant_id names table = do
    ensure_tenant_access tenant.tenant_id tenant_id
    sets ← store.batch_get_feature_sets tenant_id names table
    ok (vectors_by_name sets [])
