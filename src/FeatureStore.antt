-- ===== src/FeatureStore.antt =====
-- feature_store/services/feature_service.py, feature_store/models and the exceptions of
-- feature_store/utils/exceptions.py: the feature sets of tenants, and the interface of the data store
-- that the services use. Floats and timestamps are opaque numbers.
pub mod Attributes
pub mod Dynamo
pub mod Service
pub mod Auth
pub mod Access
pub mod Partition
pub mod Vector
pub mod Inference
pub mod Web
use confidential_ml_feature.Prelude.{ℕ, Bool, List, Text, Result}

pub record Tenant : Type 0 where
  pub tenant_id : Text
  pub api_key : Text
  pub created_at : ℕ
  pub is_active : Bool
  pub allowed_models : List Text

pub record FeatureSetCreate : Type 0 where
  pub tenant_id : Text
  pub feature_set_name : Text
  pub features : List (Text × ℕ)

pub record FeatureSetResponse : Type 0 where
  pub tenant_id : Text
  pub feature_set_name : Text
  pub features : List (Text × ℕ)
  pub created_at : ℕ
  pub updated_at : ℕ
  pub version : ℕ

pub record InferenceRequest : Type 0 where
  pub tenant_id : Text
  pub feature_set_name : Text
  pub model_name : Text

-- The exceptions, `UnauthorizedAccess` and `FeatureSetNotFound` with their messages.
pub data Exception : Type 0 where
  missing_headers invalid_credentials inactive_tenant : Exception
  forbidden_access feature_set_conflict feature_set_not_found no_features : Exception
  tenant_not_found data_store_error : Exception
  key_error type_error value_error validation_error : Exception

-- The operations of `DynamoDBService` that the services call, with the table's contents as a state.
pub record DataStore (Table : Type 0) : Type 0 where
  pub put_feature_set : FeatureSetCreate → Table → Result Exception FeatureSetResponse × Table
  pub get_feature_set : Text → Text → Table → Result Exception FeatureSetResponse
  pub list_feature_sets : Text → Table → Result Exception (List FeatureSetResponse)
  pub delete_feature_set : Text → Text → Table → Result Exception (Unit {0}) × Table
  pub batch_get_feature_sets : Text → List Text → Table → Result Exception (List FeatureSetResponse)
  pub get_tenant_record : Text → Table → Result Exception Tenant
