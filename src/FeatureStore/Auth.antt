-- ===== src/FeatureStore/Auth.antt =====
-- feature_store/middleware/tenant_auth.py: `get_current_tenant`.
use confidential_ml_feature.Prelude.{
  Bool, true, not, ltb, Option, none, some, [], ◌∷◌, Text, Result, ok, err, ◌||◌, ◌&&◌, ◌>>=◌, ◌>>◌,
  require, if◌then◌else◌, ◌=ₜ◌,
}
use confidential_ml_feature.Python.Strip.{strip, is_empty}
use confidential_ml_feature.FeatureStore.{
  Tenant, Exception, DataStore, missing_headers, invalid_credentials, inactive_tenant,
  tenant_not_found, type_error,
}

unfoldable pub is_ascii : Text → Bool
is_ascii [] = true
is_ascii (c ∷ s) = let rest = is_ascii s in ltb c 128 && rest

-- compare_digest, which takes strings of ASCII characters only.
unfoldable pub compare_digest : Text → Text → Result Exception Bool
compare_digest a b = if is_ascii a && is_ascii b then ok (a =ₜ b) else err type_error

-- (x_tenant_id or "").strip()
unfoldable pub header : Option Text → Text
header none = []
header (some s) = strip s

-- except TenantNotFound
unfoldable pub or_invalid : Result Exception Tenant → Result Exception Tenant
or_invalid (err tenant_not_found) = err invalid_credentials
or_invalid r = r

-- The checks of a tenant's record against the key provided.
unfoldable pub check_tenant : Text → Tenant → Result Exception Tenant
check_tenant provided tenant = do
  require tenant.is_active inactive_tenant
  same ← compare_digest tenant.api_key provided
  require same invalid_credentials
  ok tenant

module _ {Table : Type 0} (store : DataStore Table) where
  -- `get_current_tenant`
  unfoldable pub get_current_tenant : Option Text → Option Text → Table → Result Exception Tenant
  get_current_tenant x_tenant_id x_api_key table = do
    require (not (is_empty (header x_tenant_id) || is_empty (header x_api_key))) missing_headers
    tenant ← or_invalid (store.get_tenant_record (header x_tenant_id) table)
    check_tenant (header x_api_key) tenant
