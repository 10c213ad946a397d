-- ===== src/FeatureStore/Web/Logging.antt =====
-- feature_store/utils/logger.py and the middleware of feature_store/main.py: the request and the
-- tenant that a log line names. The clock and the texts of a record are parameters.
use confidential_ml_feature.Prelude.{
  ◌≡◌, refl, ap, ◌∙◌, Option, none, some, List, [], ◌∷◌, Text, if◌then◌else◌, false, Bool-cases,
  inl, inr, ◌=ₜ◌,
}
use confidential_ml_feature.Python.Codes.{codes}
use confidential_ml_feature.Python.Json.{Json, Fields, str, field, end, set_field, get_field}
use confidential_ml_feature.Python.Json.Lookup.{get_field-set_field_same, get_field-set_field_other}
use confidential_ml_feature.Python.Strip.{is_empty}

-- The two context variables.
pub record Context : Type 0 where
  pub request_id : Option Text
  pub tenant_id : Option Text

abbrev pub or_kept : Option Text → Option Text → Option Text
or_kept none old = old
or_kept (some s) old = some s

-- `set_log_context`, which leaves a variable as it is for a None.
unfoldable pub set_log_context : Option Text → Option Text → Context → Context
set_log_context request_id tenant_id context = record {
  request_id = or_kept request_id context.request_id;
  tenant_id = or_kept tenant_id context.tenant_id;
}

-- `clear_log_context`
unfoldable pub clear_log_context : Context → Context
clear_log_context context = record { request_id = none; tenant_id = none }

-- What a record carries, and the context that `RequestContextFilter.filter` puts into it.
pub record LogRecord : Type 0 where
  pub timestamp : Text
  pub level : Text
  pub logger : Text
  pub message : Text
  pub exception : Option Text

-- An attribute that is neither None nor empty is set.
unfoldable pub set_present : Text → Option Text → Fields → Fields
set_present name none payload = payload
set_present name (some s) payload = if is_empty s then payload else set_field name (str s) payload

-- The payload that `JsonFormatter.format` dumps, after the filter.
unfoldable pub log_payload : Context → LogRecord → Fields
unfolding set_present
log_payload context r = set_present (codes "exception") r.exception (
    set_present (codes "tenant_id") context.tenant_id (
      set_present (codes "request_id") context.request_id (
        field (codes "timestamp") (str r.timestamp) (
          field (codes "level") (str r.level) (
            field (codes "logger") (str r.logger) (field (codes "message") (str r.message) end))))))

-- X-Request-ID and X-Tenant-ID of a request.
pub record Headers : Type 0 where
  pub x_request_id : Option Text
  pub x_tenant_id : Option Text

-- request.headers.get("X-Request-ID", str(uuid4()))
abbrev pub request_id_or : Option Text → Text → Text
request_id_or (some s) fresh = s
request_id_or none fresh = fresh

module _ {Response : Type 0} where
  -- `request_context_middleware`: `call_next` runs in the context that is set, and returns a response
  -- or raises. The response goes out with the request's id.
  unfoldable pub request_context_middleware :
      Headers
      → Text
      → (Context → Option Response × Context)
      → Context
      → Option (Response × Text) × Context
  unfolding set_log_context clear_log_context
  request_context_middleware headers fresh call_next context =
      let request_id = request_id_or headers.x_request_id fresh in
      let (r, context') =
        call_next (set_log_context (some request_id) headers.x_tenant_id context) in
      (
        elim r as (λ _. Option (Response × Text)) [
          | none ↦ none
          | some response ↦ some (response, request_id)
        ],
        clear_log_context context',
      )

abbrev pub clear : Context
clear = record { request_id = none; tenant_id = none }

-- A request that was handled earlier, whatever its handlers made of the context.
pub record Handled : Type 0 where
  pub headers : Headers
  pub fresh : Text
  pub call_next : Context → Option (Unit {0}) × Context

-- The context that requests leave, one after another.
abbrev pub after : List Handled → Context → Context
after [] context = context
after (h ∷ hs) context =
    after hs (request_context_middleware h.headers h.fresh h.call_next context).1

-- A handler that logs this record: it returns what is written.
abbrev pub emit : LogRecord → Context → Option Fields × Context
emit r context = (some (log_payload context r), context)

-- What a line holds of an attribute.
abbrev pub shown : Option Text → Option Json
shown none = none
shown (some s) = if is_empty s then none else some (str s)

after-clear : (earlier : List Handled) → after earlier clear ≡ clear
unfolding request_context_middleware clear_log_context
after-clear [] = refl
after-clear (h ∷ hs) = after-clear hs

get_set_same :
    (name : Text) (o : Option Text) (payload : Fields)
    → get_field name payload ≡ none
    → get_field name (set_present name o payload) ≡ shown o
unfolding set_present
get_set_same name none payload e = e
get_set_same name (some s) payload e = elim (Bool-cases (is_empty s)) [
  | inl h ↦ rw h e
  | inr h ↦ rw h (get_field-set_field_same name (str s) payload)
]

get_set_other :
    (name other : Text) (o : Option Text) (payload : Fields)
    → name =ₜ other ≡ false
    → get_field other (set_present name o payload) ≡ get_field other payload
unfolding set_present
get_set_other name other none payload e = refl
get_set_other name other (some s) payload e = elim (Bool-cases (is_empty s)) [
  | inl h ↦ rw h refl
  | inr h ↦ rw h (get_field-set_field_other name other (str s) payload e)
]

abbrev base : LogRecord → Fields
base r = field (codes "timestamp") (str r.timestamp) (
    field (codes "level") (str r.level)
      (field (codes "logger") (str r.logger) (field (codes "message") (str r.message) end)))

log_payload-request_id :
    (context : Context) (r : LogRecord)
    → get_field (codes "request_id") (log_payload context r) ≡ shown context.request_id
unfolding log_payload get_field ◌=ₜ◌
log_payload-request_id context r =
    get_set_other (codes "exception") (codes "request_id") r.exception _ refl
    ∙ get_set_other (codes "tenant_id") (codes "request_id") context.tenant_id _ refl
    ∙ get_set_same (codes "request_id") context.request_id (base r) refl

log_payload-tenant_id :
    (context : Context) (r : LogRecord)
    → get_field (codes "tenant_id") (log_payload context r) ≡ shown context.tenant_id
unfolding log_payload get_field ◌=ₜ◌
log_payload-tenant_id context r =
    get_set_other (codes "exception") (codes "tenant_id") r.exception _ refl
    ∙ get_set_same (codes "tenant_id") context.tenant_id _
        (get_set_other (codes "request_id") (codes "tenant_id") context.request_id (base r) refl)

or_kept-none : (o : Option Text) → or_kept o none ≡ o
or_kept-none none = refl
or_kept-none (some s) = refl

-- Whatever requests were handled before, and whatever their handlers did to the context: a line that
-- a handler logs in the context in which the middleware calls it names the request's own id, the one
-- that its response carries, and the tenant of its own header, each unless it is empty or missing;
-- and after the request the context is clear.
pub request_context_middleware-own :
    (earlier : List Handled) (headers : Headers) (fresh : Text) (r : LogRecord)
    → (payload : Fields) × (request_context_middleware headers fresh (emit r) (after earlier clear)
        ≡ (some (payload, request_id_or headers.x_request_id fresh), clear))
      × (get_field (codes "request_id") payload
          ≡ shown (some (request_id_or headers.x_request_id fresh)))
      × (get_field (codes "tenant_id") payload ≡ shown headers.x_tenant_id)
unfolding request_context_middleware clear_log_context set_log_context
request_context_middleware-own earlier headers fresh r =
    let request_id = request_id_or headers.x_request_id fresh in
    let context = set_log_context (some request_id) headers.x_tenant_id clear in
    (
      log_payload context r,
      rw (after-clear earlier) refl,
      log_payload-request_id context r,
      log_payload-tenant_id context r ∙ ap shown (or_kept-none headers.x_tenant_id),
    )
