-- ===== src/FeatureStore/Web/Isolation.antt =====
-- feature_store/routers/features.py: whose feature sets a request gets at, and how it is refused.
use mathlib.Core.Path.{subst}
use confidential_ml_feature.Python.Codes.{codes}
use confidential_ml_feature.Prelude.{
  ◌≡◌, ◌≢◌, refl, Option, some, [], Text, false, Result, ok, err, All, Ensures, Ensures-ok, arith,
}
use confidential_ml_feature.Python.Strip.{is_empty}
use confidential_ml_feature.FeatureStore.{
  Tenant, FeatureSetCreate, FeatureSetResponse, DataStore, forbidden_access,
}
use confidential_ml_feature.FeatureStore
use confidential_ml_feature.FeatureStore.Auth.{header, get_current_tenant}
use confidential_ml_feature.FeatureStore.Service
use confidential_ml_feature.FeatureStore.Access.{
  IsPartitioned, IsAuthenticated, get_current_tenant-IsAuthenticated, reads_are_own,
  requested_or_lem, ensure_tenant_access-ne,
}
use confidential_ml_feature.FeatureStore.Web.{
  Credentials, Route, create_route, get_route, list_route, delete_route, Reply, created, found,
  listed, deleted, lift, run_for, respond, as_app_error, service_app_error, handle_app_exception,
  run_route, call_route, answer_route, handle_exception, JsonResponse,
}

-- The tenant that a request names, if it names one.
abbrev pub names : Route → Option Text
names (create_route payload) = some payload.tenant_id
names (get_route name requested) = requested
names (list_route requested) = requested
names (delete_route name requested) = requested

-- Every feature set that a reply of a read holds is this tenant's.
abbrev pub IsOwn : Text → Reply → Type 0
IsOwn tenant_id (found r) = r.tenant_id ≡ tenant_id
IsOwn tenant_id (listed rs) = All (λ (s : FeatureSetResponse). s.tenant_id ≡ tenant_id) rs
IsOwn tenant_id _ = Unit {0}

lift-Ensures {ℓ κ} :
    {A : Type ℓ} (P : A → Type κ) (Q : Reply → Type κ) (f : A → Reply)
    (r : Result FeatureStore.Exception A)
    → ((a : A) → P a → Q (f a))
    → Ensures P r
    → Ensures Q (lift f r)
unfolding lift
lift-Ensures P Q f (ok a) h e = h a e
lift-Ensures P Q f (err x) h e = e

any_ok {ℓ} : {A : Type ℓ} (r : Result FeatureStore.Exception A) → Ensures (λ _. Unit {0}) r
any_ok (ok a) = tt
any_ok (err e) = tt

-- The response of a refused request.
abbrev pub forbidden : Option Text → JsonResponse
forbidden request_id = record {
  status_code = 403;
  content = record { error = codes "forbidden_access"; request_id = request_id };
}

module _ {Table : Type 0} (store : DataStore Table) where
  run_route-IsOwn :
      (route : Route) (tenant : Tenant) (table : Table)
      → IsPartitioned store
      → Ensures (IsOwn tenant.tenant_id) (run_route store route tenant table).0
  unfolding run_route
  run_route-IsOwn (create_route payload) tenant table law =
      lift-Ensures (λ _. Unit {0}) (IsOwn tenant.tenant_id) created _ (λ a h. h) (any_ok _)
  run_route-IsOwn (get_route name requested) tenant table law =
      lift-Ensures _ (IsOwn tenant.tenant_id) found _ (λ a h. h)
        (reads_are_own store tenant name requested table law).0
  run_route-IsOwn (list_route requested) tenant table law =
      lift-Ensures _ (IsOwn tenant.tenant_id) listed _ (λ a h. h)
        (reads_are_own store tenant [] requested table law).1
  run_route-IsOwn (delete_route name requested) tenant table law =
      lift-Ensures (λ _. Unit {0}) (IsOwn tenant.tenant_id) (λ _. deleted) _ (λ a h. h) (any_ok _)

  respond-eq-ok :
      (request_id : Option Text) (r : Result FeatureStore.Exception Reply) (reply : Reply)
      → respond request_id r ≡ ok reply
      → r ≡ ok reply
  unfolding respond
  respond-eq-ok request_id (ok a) reply e = ground (arith, e)
  respond-eq-ok request_id (err x) reply e = absurd (ground (arith, e))

  run_for-eq-ok :
      (g : Result FeatureStore.Exception Tenant) (route : Route) (table : Table) (reply : Reply)
      → (run_for store g route table).0 ≡ ok reply
      → (tenant : Tenant) × (g ≡ ok tenant) × ((run_route store route tenant table).0 ≡ ok reply)
  unfolding run_for
  run_for-eq-ok (ok tenant) route table reply e = (tenant, refl, e)
  run_for-eq-ok (err x) route table reply e = absurd (ground (arith, e))

  -- Over a data store whose reads return only records of the tenant asked for: a feature set that one
  -- of the routes gets or lists for a request is of the tenant that the request's header names, and
  -- the request has shown the key of that tenant's record, which is active.
  pub answer_route-IsOwn :
      (request_id : Option Text) (c : Credentials) (route : Route) (table : Table) (reply : Reply)
      → IsPartitioned store
      → (answer_route store request_id c route table).0 ≡ ok reply
      → IsOwn (header c.x_tenant_id) reply
        × ((tenant : Tenant) × IsAuthenticated store c.x_tenant_id c.x_api_key table tenant)
  unfolding answer_route call_route
  answer_route-IsOwn request_id c route table reply law e =
      let current = get_current_tenant store c.x_tenant_id c.x_api_key table in
      let (tenant, let_in, ran) =
        run_for-eq-ok current route table reply
          (respond-eq-ok request_id (run_for store current route table).0 reply e) in
      let shown =
        get_current_tenant-IsAuthenticated store c.x_tenant_id c.x_api_key table tenant let_in in
      let same =
        Ensures-ok (λ (t : Tenant). t.tenant_id ≡ header c.x_tenant_id) _ tenant
          (law.recorded (header c.x_tenant_id) table) shown.recorded in
      (
        subst (λ id. IsOwn id reply) same
            (Ensures-ok (IsOwn tenant.tenant_id) _ reply (run_route-IsOwn route tenant table law)
              ran),
        (tenant, shown),
      )

  run_route-refused :
      (route : Route) (tenant : Tenant) (other : Text) (table : Table)
      → names route ≡ some other
      → is_empty other ≡ false
      → tenant.tenant_id ≢ other
      → run_route store route tenant table ≡ (err forbidden_access, table)
  unfolding run_route lift Service.create_feature_set Service.get_feature_set
      Service.list_feature_sets Service.delete_feature_set Service.guarded
  run_route-refused (create_route payload) tenant other table n given ne =
      let same : other ≡ payload.tenant_id = ground (arith, n) in
      rw
        (ensure_tenant_access-ne tenant.tenant_id payload.tenant_id
          (subst (λ t. tenant.tenant_id ≢ t) same ne))
        refl
  run_route-refused (get_route name requested) tenant other table n given ne =
      rw
        (
          n,
          requested_or_lem other tenant.tenant_id given,
          ensure_tenant_access-ne tenant.tenant_id other ne,
        )
        refl
  run_route-refused (list_route requested) tenant other table n given ne =
      rw
        (
          n,
          requested_or_lem other tenant.tenant_id given,
          ensure_tenant_access-ne tenant.tenant_id other ne,
        )
        refl
  run_route-refused (delete_route name requested) tenant other table n given ne =
      rw
        (
          n,
          requested_or_lem other tenant.tenant_id given,
          ensure_tenant_access-ne tenant.tenant_id other ne,
        )
        refl

  -- Whatever the data store does: a request whose caller is let in, and which names another, nonempty
  -- tenant than the caller's own in its query or its body, gets a 403 with the code `forbidden_access`
  -- and the request's id, and leaves the table as it was.
  pub answer_route-refused :
      (request_id : Option Text) (c : Credentials) (route : Route) (table : Table) (tenant : Tenant)
      (other : Text)
      → get_current_tenant store c.x_tenant_id c.x_api_key table ≡ ok tenant
      → names route ≡ some other
      → is_empty other ≡ false
      → tenant.tenant_id ≢ other
      → answer_route store request_id c route table ≡ (err (forbidden request_id), table)
  unfolding answer_route call_route run_for respond handle_exception as_app_error service_app_error
      handle_app_exception
  answer_route-refused request_id c route table tenant other let_in n given ne =
      rw let_in (rw (run_route-refused route tenant other table n given ne) refl)
