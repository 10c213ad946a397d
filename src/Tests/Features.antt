-- ===== src/Tests/Features.antt =====
-- A data store with the feature set that is asked for, and one tenant.
use confidential_ml_feature.Prelude.{
  List, ℕ, ◌≡◌, refl, [], ◌∷◌, none, some, true, Text, ok, err, ◌=ₜ◌,
}
use confidential_ml_feature.Python.Codes.{codes}
use confidential_ml_feature.Python.Strip.{strip, lstrip}
use confidential_ml_feature.FeatureStore.{
  Tenant, FeatureSetCreate, FeatureSetResponse, InferenceRequest, DataStore, forbidden_access,
}
use confidential_ml_feature.FeatureStore.Service.{
  feature_vector, create_feature_set, get_feature_set, list_feature_sets, delete_feature_set,
  prepare_feature_vector, prepare_batch_feature_vectors,
}
use confidential_ml_feature.FeatureStore.Auth.{
  header, or_invalid, is_ascii, compare_digest, check_tenant, get_current_tenant,
}
use confidential_ml_feature.FeatureStore.Attributes.{
  Attribute, Item, text, float, list, dict, nil, cons, end, entry, get_attribute, HasNoDecimal,
}
use confidential_ml_feature.FeatureStore.Dynamo.{Boto}
use confidential_ml_feature.FeatureStore.Dynamo.Store.{dynamo}
use confidential_ml_feature.FeatureStore.Web.{
  Credentials, get_route, delete_route, found, lift, run_route, run_for, call_route, respond,
  answer_route,
}
use confidential_ml_feature.FeatureStore.Web.Isolation.{
  IsOwn, forbidden, answer_route-IsOwn, answer_route-refused,
}
use confidential_ml_feature.FeatureStore.Service.{ensure_tenant_access, requested_or}
use confidential_ml_feature.FeatureStore.Partition.{IsKeyed, dynamo-IsPartitioned}
use confidential_ml_feature.FeatureStore.Vector.{swap, HasDistinctNames, feature_vector-Reordered}
use confidential_ml_feature.FeatureStore.Access.{
  IsPartitioned, IsAuthenticated, other_tenant_refused,
}

abbrev tenant : Tenant
tenant = record {
  tenant_id = codes "a";
  api_key = codes "k";
  created_at = 0;
  is_active = true;
  allowed_models = [];
}

abbrev set_of : Text → FeatureSetResponse
set_of tenant_id = record {
  tenant_id = tenant_id;
  feature_set_name = codes "s";
  features = (codes "x", 5) ∷ [];
  created_at = 0;
  updated_at = 0;
  version = 1;
}

-- The table counts the writes.
abbrev store : DataStore ℕ
store = record {
  put_feature_set = λ payload table. (ok (set_of payload.tenant_id), 1);
  get_feature_set = λ tenant_id name table. ok (set_of tenant_id);
  list_feature_sets = λ tenant_id table. ok (set_of tenant_id ∷ []);
  delete_feature_set = λ tenant_id name table. (ok tt, 1);
  batch_get_feature_sets = λ tenant_id names table. ok (set_of tenant_id ∷ []);
  get_tenant_record = λ tenant_id table. ok (record tenant { tenant_id = tenant_id });
}

abbrev payload : FeatureSetCreate
payload = record { tenant_id = codes "ab"; feature_set_name = codes "s"; features = [] }

abbrev request : InferenceRequest
request = record { tenant_id = codes "ab"; feature_set_name = codes "s"; model_name = codes "m" }

store-IsPartitioned : IsPartitioned store
store-IsPartitioned = record {
  get = λ tenant_id name table. refl;
  listed = λ tenant_id table. (refl, tt);
  recorded = λ tenant_id table. refl;
}

other_tenant_refused_example :
    (create_feature_set store tenant payload 0 ≡ (err forbidden_access, 0))
    × (delete_feature_set store tenant (codes "s") (some (codes "ab")) 0
        ≡ (err forbidden_access, 0))
    × (get_feature_set store tenant (codes "s") (some (codes "ab")) 0 ≡ err forbidden_access)
    × (list_feature_sets store tenant (some (codes "ab")) 0 ≡ err forbidden_access)
    × (prepare_feature_vector store tenant request 0 ≡ err forbidden_access)
    × (prepare_batch_feature_vectors store tenant (codes "ab") [] 0 ≡ err forbidden_access)
other_tenant_refused_example =
    other_tenant_refused store tenant (codes "ab") (codes "s") payload request [] 0 (λ e. cc) refl

let_in : get_current_tenant store (some (codes " a")) (some (codes "k ")) 0 ≡ ok tenant
unfolding get_current_tenant header or_invalid check_tenant compare_digest is_ascii ◌=ₜ◌ strip
    lstrip
let_in = refl

-- A table with one feature set, of whichever tenant is asked for.
abbrev stored_item : Text → Item
stored_item tenant_id =
    entry (codes "tenant_id") (text tenant_id) (entry (codes "features") (dict end) end)

abbrev boto : Boto ℕ
boto = record {
  now = λ table. 0;
  put_item = λ item condition table. (ok tt, 1);
  get_item = λ tenant_id resource_id table. ok (some (stored_item tenant_id));
  delete_item = λ tenant_id resource_id condition table. (ok tt, 1);
  query_pages = λ tenant_id prefix table. ok (stored_item tenant_id ∷ []) ∷ [];
  batch_get_item = λ keys table retries. ok ([], []);
  serialize = λ v. v;
  deserialize = λ v. some v;
  decimal_of = λ x. x;
  float_of = λ x. x;
  iso = λ t. codes "t";
  from_iso = λ s. some 0;
  to_int = λ v. some 1;
  truthy = λ v. true;
}

boto-IsKeyed : IsKeyed boto
unfolding get_attribute ◌=ₜ◌
boto-IsKeyed = record {
  get = λ tenant_id resource_id table. refl;
  query = λ tenant_id prefix table. ((refl, tt), tt);
}

dynamo-IsPartitioned_example : IsPartitioned (dynamo boto)
dynamo-IsPartitioned_example = dynamo-IsPartitioned boto boto-IsKeyed

abbrev api_value : Attribute
api_value = dict (entry (codes "x") (float 5) (entry (codes "y") (list (cons (float 6) nil)) end))

api_value-HasNoDecimal : HasNoDecimal api_value
unfolding HasNoDecimal
api_value-HasNoDecimal = (tt, ((tt, tt), tt))

abbrev forward : List (Text × ℕ)
forward = (codes "y", 2) ∷ (codes "yx", 1) ∷ []

abbrev backward : List (Text × ℕ)
backward = (codes "yx", 1) ∷ (codes "y", 2) ∷ []

forward-HasDistinctNames : HasDistinctNames forward
forward-HasDistinctNames = ((λ e. cc, tt), (tt, tt))

feature_vector-Reordered_example : feature_vector forward ≡ feature_vector backward
feature_vector-Reordered_example =
    feature_vector-Reordered forward backward (swap (codes "y", 2) (codes "yx", 1) [])
      forward-HasDistinctNames

abbrev shown_key : Credentials
shown_key = record { x_tenant_id = some (codes " a"); x_api_key = some (codes "k ") }

answered :
    (answer_route store none shown_key (get_route (codes "s") none) 0).0
    ≡ ok (found (set_of (codes "a")))
unfolding answer_route call_route run_for run_route lift respond get_current_tenant header
    or_invalid check_tenant compare_digest is_ascii ◌=ₜ◌ strip lstrip get_feature_set
    ensure_tenant_access requested_or
answered = refl

answer_route-IsOwn_example :
    IsOwn (header (some (codes " a"))) (found (set_of (codes "a")))
    × ((t : Tenant) × IsAuthenticated store (some (codes " a")) (some (codes "k ")) 0 t)
answer_route-IsOwn_example =
    answer_route-IsOwn store none shown_key (get_route (codes "s") none) 0
      (found (set_of (codes "a"))) store-IsPartitioned answered

answer_route-refused_example :
    answer_route store (some (codes "r")) shown_key (delete_route (codes "s") (some (codes "ab"))) 0
    ≡ (err (forbidden (some (codes "r"))), 0)
answer_route-refused_example =
    answer_route-refused store (some (codes "r")) shown_key
      (delete_route (codes "s") (some (codes "ab"))) 0 tenant (codes "ab") let_in refl refl
      (λ e. cc)
