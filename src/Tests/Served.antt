-- ===== src/Tests/Served.antt =====
-- Requests of the host's service, a table of one item, and the enclave's accept loop.
use confidential_ml_feature.Prelude.{
  Bool, ℕ, ◌≡◌, refl, List, Option, none, some, [], ◌∷◌, Text, Result, ok, err, ◌⊎◌, arith, true,
  false,
}
use confidential_ml_feature.Python.Codes.{codes}
use confidential_ml_feature.Python.Json.{Fields, get_field}
use confidential_ml_feature.Server.Lifecycle.Stopped.{serve_forever-IsStopped}
use confidential_ml_feature.Server.Lifecycle.{
  State, Event, accepted, undisturbed, inside_submit, deadlocked, blocks, accept_failed,
  serve_forever, waiting, IsStopped,
}
use confidential_ml_feature.FeatureStore.{FeatureSetCreate, feature_set_conflict}
use confidential_ml_feature.FeatureStore.Attributes.{Attribute, Item, int, decimal}
use confidential_ml_feature.FeatureStore.Dynamo.{
  Condition, Failure, conditional_check_failed, Boto, put_feature_set, get_feature_set,
}
use confidential_ml_feature.FeatureStore.Dynamo.Table.{meets, IsTable, item_as_read}
use confidential_ml_feature.FeatureStore.Dynamo.RoundTrip.{
  response_of, get_feature_set-put_feature_set,
}
use confidential_ml_feature.FeatureStore.Web.Logging.{
  Headers, LogRecord, Handled, request_context_middleware, emit, after, clear, shown,
  request_context_middleware-own,
}

-- A table of one slot.
abbrev put_if : Bool → Item → Option Item → Result Failure (Unit {0}) × Option Item
put_if true item there = (ok tt, some item)
put_if false item there = (err conditional_check_failed, there)

abbrev met : Option Condition → Option Item → Bool
met none there = true
met (some condition) there = meets condition there

-- What is read of the slot.
abbrev seen : Option Item → Option Item
seen none = none
seen (some item) = some (item_as_read (λ n. n) item)

abbrev get : Option Item → Result Failure (Option Item)
get there = ok (seen there)

abbrev put : Item → Option Condition → Option Item → Result Failure (Unit {0}) × Option Item
put item condition there = put_if (met condition (seen there)) item there

abbrev first_code : Text → Option ℕ
first_code [] = none
first_code (c ∷ s) = some c

abbrev number : Attribute → Option ℕ
number (int n) = some n
number (decimal n) = some n
number _ = none

abbrev boto : Boto (Option Item)
boto = record {
  now = λ table. 5;
  put_item = put;
  get_item = λ tenant_id resource_id table. get table;
  delete_item = λ tenant_id resource_id condition table. (ok tt, none);
  query_pages = λ tenant_id prefix table. [];
  batch_get_item = λ keys table retries. err conditional_check_failed;
  serialize = λ v. v;
  deserialize = λ v. some v;
  decimal_of = λ x. x;
  float_of = λ x. x;
  iso = λ t. t ∷ [];
  from_iso = first_code;
  to_int = number;
  truthy = λ v. true;
}

kept_if :
    (b : Bool) (item : Item) (there : Option Item)
    → (put_if b item there).0 ≡ ok tt
    → get (put_if b item there).1 ≡ ok (some (item_as_read (λ n. n) item))
kept_if true item there e = refl
kept_if false item there e = absurd (ground (arith, e))

seen_of : (there table : Option Item) → get table ≡ ok there → seen table ≡ there
seen_of there table e = cc

boto-IsTable : IsTable boto (λ n. n)
boto-IsTable = record {
  kept = λ item condition table tenant_id resource_id named keyed e.
      kept_if (met condition (seen table)) item table e;
  refused = λ item condition there table tenant_id resource_id named keyed e unmet.
      rw (seen_of there table e) (rw unmet refl);
  exact = λ x. refl;
  dated = λ t. refl;
  int_read = λ n. refl;
  decimal_read = λ n. refl;
}

abbrev created : FeatureSetCreate
created = record {
  tenant_id = codes "a";
  feature_set_name = codes "s";
  features = (codes "x", 4) ∷ [];
}

get_feature_set-put_feature_set_example :
    ((put_feature_set boto created none).0 ≡ ok (response_of created 5))
    × (get_feature_set boto (codes "a") (codes "s") (put_feature_set boto created none).1
        ≡ ok (response_of created 5))
    × (put_feature_set boto (record created { features = [] }) (put_feature_set boto created none).1
        ≡ (err feature_set_conflict, (put_feature_set boto created none).1))
get_feature_set-put_feature_set_example =
    get_feature_set-put_feature_set boto (λ n. n) boto-IsTable created [] none refl

abbrev headers : Headers
headers = record { x_request_id = none; x_tenant_id = some (codes "a") }

abbrev line : LogRecord
line = record {
  timestamp = codes "t";
  level = codes "INFO";
  logger = codes "l";
  message = codes "m";
  exception = none;
}

-- A request of another tenant, whose handler raises.
abbrev before : Handled
before = record {
  headers = record { x_request_id = some (codes "r"); x_tenant_id = some (codes "b") };
  fresh = codes "u";
  call_next = λ context. (none, context);
}

request_context_middleware-own_example :
    (payload : Fields) × (request_context_middleware headers
        (codes "u")
        (emit line)
        (after (before ∷ []) clear)
      ≡ (some (payload, codes "u"), clear))
    × (get_field (codes "request_id") payload ≡ shown (some (codes "u")))
    × (get_field (codes "tenant_id") payload ≡ shown (some (codes "a")))
request_context_middleware-own_example =
    request_context_middleware-own (before ∷ []) headers (codes "u") line

abbrev server : State
server = record { stop_event = false; socket_open = true; pool_open = true; submitted = [] }

abbrev events : List Event
events = accepted 7 undisturbed ∷ accepted 8 (inside_submit true) ∷ accept_failed ∷ []

serve_forever-IsStopped_example :
    ((serve_forever events server).1.submitted ≡ 7 ∷ 8 ∷ [])
    × (((serve_forever events server).0 ≡ waiting)
        ⊎ IsStopped (serve_forever events server).1
        ⊎ (((serve_forever events server).0 ≡ deadlocked) × (blocks events ≡ true)))
serve_forever-IsStopped_example =
    serve_forever-IsStopped events server
      (record { going = refl; listening = refl; working = refl })
