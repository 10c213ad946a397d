-- ===== src/FeatureStore/Access.antt =====
-- `FeatureService._ensure_tenant_access` and `get_current_tenant`: who gets at the feature sets.
use confidential_ml_feature.Prelude.{
  ◌≡◌, ◌≢◌, refl, ap, ◌∙◌, Bool, true, false, not, Option, some, List, [], ◌∷◌, Text, Result, ok,
  err, require, >>=-eq-ok, Ensures, Ensures-bind, All, =ₜ_iff, arith, ◌||◌,
}
use mathlib.Core.Path.{subst}
use confidential_ml_feature.Python.Strip.{is_empty}
use confidential_ml_feature.FeatureStore.{
  Tenant, FeatureSetCreate, FeatureSetResponse, InferenceRequest, Exception, DataStore,
  forbidden_access, tenant_not_found, missing_headers, inactive_tenant, invalid_credentials,
}
use confidential_ml_feature.FeatureStore.Service.{
  ensure_tenant_access, requested_or, guarded, create_feature_set, get_feature_set,
  list_feature_sets, delete_feature_set, prepare_feature_vector, prepare_batch_feature_vectors,
}
use confidential_ml_feature.FeatureStore.Auth.{
  header, or_invalid, compare_digest, check_tenant, get_current_tenant,
}

pub requested_or_lem :
    (other own : Text) → is_empty other ≡ false → requested_or (some other) own ≡ other
unfolding requested_or
requested_or_lem [] own h = cc
requested_or_lem (c ∷ s) own h = refl

pub ensure_tenant_access-ne :
    (own other : Text) → own ≢ other → ensure_tenant_access own other ≡ err forbidden_access
unfolding ensure_tenant_access
ensure_tenant_access-ne own other h = ground (arith, =ₜ_iff own other)

ensure_tenant_access-eq-ok :
    (own other : Text) (u : Unit {0}) → ensure_tenant_access own other ≡ ok u → other ≡ own
unfolding ensure_tenant_access
ensure_tenant_access-eq-ok own other u h = ground (arith, =ₜ_iff own other)

-- What the data store's reads promise: the records are those of the tenant asked for.
pub record IsPartitioned {Table : Type 0} (store : DataStore Table) : Type 0 where
  pub get :
      (tenant_id name : Text) (table : Table)
      → Ensures
          (λ (s : FeatureSetResponse). s.tenant_id ≡ tenant_id)
          (store.get_feature_set tenant_id name table)
  pub listed :
      (tenant_id : Text) (table : Table)
      → Ensures
          (All (λ (s : FeatureSetResponse). s.tenant_id ≡ tenant_id))
          (store.list_feature_sets tenant_id table)
  pub recorded :
      (tenant_id : Text) (table : Table)
      → Ensures (λ (t : Tenant). t.tenant_id ≡ tenant_id) (store.get_tenant_record tenant_id table)

module _ {Table : Type 0} (store : DataStore Table) where
  -- Whatever the data store does: a request that names another, nonempty tenant than its own is
  -- refused with ForbiddenAccess by all six operations of the feature service, and the two that
  -- write leave the table as it was.
  pub other_tenant_refused :
      (tenant : Tenant) (other name : Text) (payload : FeatureSetCreate)
      (request : InferenceRequest) (names : List Text) (table : Table)
      → tenant.tenant_id ≢ other
      → is_empty other ≡ false
      → (create_feature_set store tenant (record payload { tenant_id = other }) table
          ≡ (err forbidden_access, table))
        × (delete_feature_set store tenant name (some other) table ≡ (err forbidden_access, table))
        × (get_feature_set store tenant name (some other) table ≡ err forbidden_access)
        × (list_feature_sets store tenant (some other) table ≡ err forbidden_access)
        × (prepare_feature_vector store tenant (record request { tenant_id = other }) table
            ≡ err forbidden_access)
        × (prepare_batch_feature_vectors store tenant other names table ≡ err forbidden_access)
  unfolding create_feature_set get_feature_set list_feature_sets delete_feature_set
      prepare_feature_vector prepare_batch_feature_vectors guarded
  other_tenant_refused tenant other name payload request names table ne given =
      let refused = ensure_tenant_access-ne tenant.tenant_id other ne in
      let asked = requested_or_lem other tenant.tenant_id given in
      (
        rw refused refl,
        rw (asked, refused) refl,
        rw (asked, refused) refl,
        rw (asked, refused) refl,
        rw refused refl,
        rw refused refl,
      )

  -- Over a data store whose reads return only records of the tenant asked for: what the feature
  -- service gets and lists, whichever tenant the request names, is of the authenticated tenant.
  pub reads_are_own :
      (tenant : Tenant) (name : Text) (requested : Option Text) (table : Table)
      → IsPartitioned store
      → Ensures
          (λ (s : FeatureSetResponse). s.tenant_id ≡ tenant.tenant_id)
          (get_feature_set store tenant name requested table)
        × Ensures
            (All (λ (s : FeatureSetResponse). s.tenant_id ≡ tenant.tenant_id))
            (list_feature_sets store tenant requested table)
  unfolding get_feature_set list_feature_sets
  reads_are_own tenant name requested table law =
      let asked = requested_or requested tenant.tenant_id in
      (
        Ensures-bind (λ (s : FeatureSetResponse). s.tenant_id ≡ tenant.tenant_id)
            (ensure_tenant_access tenant.tenant_id asked) _
            (λ u e.
              subst
                (λ t.
                  Ensures (λ (s : FeatureSetResponse). s.tenant_id ≡ t)
                    (store.get_feature_set asked name table))
                (ensure_tenant_access-eq-ok tenant.tenant_id asked u e) (law.get asked name table)),
        Ensures-bind (All (λ (s : FeatureSetResponse). s.tenant_id ≡ tenant.tenant_id))
            (ensure_tenant_access tenant.tenant_id asked) _
            (λ u e.
              subst
                (λ t.
                  Ensures (All (λ (s : FeatureSetResponse). s.tenant_id ≡ t))
                    (store.list_feature_sets asked table))
                (ensure_tenant_access-eq-ok tenant.tenant_id asked u e) (law.listed asked table)),
      )

-- What a tenant has shown who is let in under a pair of headers.
pub record IsAuthenticated {Table : Type 0} (store : DataStore Table)
    (x_tenant_id x_api_key : Option Text) (table : Table) (tenant : Tenant) : Type 0 where
  pub named : is_empty (header x_tenant_id) ≡ false
  pub keyed : is_empty (header x_api_key) ≡ false
  pub recorded : store.get_tenant_record (header x_tenant_id) table ≡ ok tenant
  pub active : tenant.is_active ≡ true
  pub same_key : tenant.api_key ≡ header x_api_key

require-eq-ok : (b : Bool) (e : Exception) (u : Unit {0}) → require b e ≡ ok u → b ≡ true
require-eq-ok true e u h = refl
require-eq-ok false e u h = cc

or_invalid-eq-ok :
    (r : Result Exception Tenant) (tenant : Tenant) → or_invalid r ≡ ok tenant → r ≡ ok tenant
unfolding or_invalid
or_invalid-eq-ok (ok t) tenant h = h
or_invalid-eq-ok (err tenant_not_found) tenant h = cc
or_invalid-eq-ok (err _) tenant h = cc

compare_digest-eq-ok : (a b : Text) → compare_digest a b ≡ ok true → a ≡ b
unfolding compare_digest
compare_digest-eq-ok a b h = ground (arith, =ₜ_iff a b)

check_tenant-eq-ok :
    (provided : Text) (tenant found : Tenant)
    → check_tenant provided tenant ≡ ok found
    → (tenant ≡ found) × (tenant.is_active ≡ true) × (tenant.api_key ≡ provided)
unfolding check_tenant
check_tenant-eq-ok provided tenant found h =
    let (u, active, h₁) = >>=-eq-ok (require tenant.is_active inactive_tenant) _ h in
    let (same, compared, h₂) = >>=-eq-ok (compare_digest tenant.api_key provided) _ h₁ in
    let (v, checked, h₃) = >>=-eq-ok (require same invalid_credentials) _ h₂ in
    (
      cc,
      require-eq-ok tenant.is_active inactive_tenant u active,
      compare_digest-eq-ok tenant.api_key provided
          (compared ∙ ap ok (require-eq-ok same invalid_credentials v checked)),
    )

-- A caller who is let in as a tenant has named it, is let in as the tenant of that record, which is
-- active, and has shown its key; neither header was empty.
pub get_current_tenant-IsAuthenticated :
    {Table : Type 0} (store : DataStore Table) (x_tenant_id x_api_key : Option Text) (table : Table)
    (tenant : Tenant)
    → get_current_tenant store x_tenant_id x_api_key table ≡ ok tenant
    → IsAuthenticated store x_tenant_id x_api_key table tenant
unfolding get_current_tenant
get_current_tenant-IsAuthenticated store x_tenant_id x_api_key table tenant h =
    let given = not (is_empty (header x_tenant_id) || is_empty (header x_api_key)) in
    let (u, present, h₁) = >>=-eq-ok (require given missing_headers) _ h in
    let (found, recorded, h₂) =
      >>=-eq-ok (or_invalid (store.get_tenant_record (header x_tenant_id) table)) _ h₁ in
    let (same, active, same_key) = check_tenant-eq-ok (header x_api_key) found tenant h₂ in
    let both = require-eq-ok given missing_headers u present in
    record {
      named = ground (arith, both);
      keyed = ground (arith, both);
      recorded = or_invalid-eq-ok _ tenant (recorded ∙ ap ok same);
      active = cc (active, ap (λ (t : Tenant). t.is_active) same);
      same_key = cc (same_key, ap (λ (t : Tenant). t.api_key) same);
    }
