-- ===== src/Tests/Network.antt =====
-- A request of the host's client, its frame in two pieces, and the enclave's answer in two.
use confidential_ml_feature.Prelude.{
  ◌==◌, ℕ, ◌≡◌, refl, true, Option, none, some, List, [], ◌∷◌, ◌++◌, arith, ◌=ₜ◌, if◌then◌else◌,
  Text, Bytes, length, ok, err, pos,
}
use confidential_ml_feature.Python.Codes.{codes}
use confidential_ml_feature.Python.Json.{Json, Fields, float, obj, field, set_field, get_field}
use confidential_ml_feature.Python.Strip.{strip, lstrip}
use confidential_ml_feature.Python.IntBytes.{to_bytes}
use confidential_ml_feature.OrderedDict
use confidential_ml_feature.Wire
use confidential_ml_feature.Wire.{
  JsonCodec, Stream, chunk, frame, encode_frame, parse_payload, connection_closed,
}
use confidential_ml_feature.Wire.Client.{decode_frame}
use confidential_ml_feature.Wire.Server.{read_message}
use confidential_ml_feature.Wire.Chunks.{Carries}
use confidential_ml_feature.Wire.RoundTrip.{IsReadBack, Delivers, decode_frame-encode_frame}
use confidential_ml_feature.Wire.Truncated.{answer_of, truncated_frame}
use confidential_ml_feature.Engine
use confidential_ml_feature.Engine.{LoadedModel, Platform, Engine}
use confidential_ml_feature.Server.{
  Message, dispatch_request, serve, handle_predict, load_and_predict, run_prediction, respond,
  to_floats,
}
use confidential_ml_feature.Server.Rendering.{response_fields, prediction_fields}
use confidential_ml_feature.Server.Connection.{codec, handle_connection}
use confidential_ml_feature.Server.Delivery.{Answers, handle_connection-serve}
use confidential_ml_feature.EnclaveClient.{
  acquire, connected, take_or_connect, Sockets, Settings, State,
}
use confidential_ml_feature.EnclaveClient.Responses.{predict_payload, floats, Conversions, predict}
use confidential_ml_feature.EndToEnd.View.{client_view}
use confidential_ml_feature.EndToEnd.Exchange.{IsExchange, request_of, predict_end_to_end}

abbrev pub python : Conversions
python = record {
  to_float = λ v. elim v [ float x ↦ some x | _ ↦ none ];
  str_of = λ v. [];
  b64encode = λ b. b;
}

abbrev request : Fields
request = request_of python (codes "m") (4 ∷ []) (1 ∷ []) none (some (codes "a"))

abbrev pub answer : Fields
answer = prediction_fields (record { prediction = 7; confidence = 1; latency_ms = 3 }) true

-- The request's JSON text is 1 and the answer's is 2.
abbrev dumps : Json → Bytes
dumps (obj (field k v d)) = if k =ₜ codes "model_name" then 1 ∷ [] else 2 ∷ []
dumps _ = []

abbrev loads : Bytes → Option Json
loads [] = none
loads (b ∷ bs) = if b == 1 then some (obj request) else some (obj answer)

abbrev platform : Platform (Unit {0}) ℕ
platform = record {
  decrypt_data_key = λ key tenant keys. (some key, keys);
  b64decode = λ s. some s;
  loads = loads;
  dumps = dumps;
  aes_gcm_decrypt = λ key nonce ciphertext aad. some ciphertext;
  joblib_load = λ b. some (length b);
  n_features_in = λ m. some (pos 1);
  model_predict = λ m xs. some m;
  max_probability = λ m xs. none;
  float_one = 1;
  to_float = λ v. ok 4;
}

abbrev engine : Engine (Unit {0}) ℕ
engine = record {
  models =
      (codes "m", record { model_name = codes "m"; model = 7; feature_dimension = pos 1 }) ∷ [];
  max_models = 2;
  keys = tt;
}

abbrev text : Message → Text
text m = []

abbrev pub json : JsonCodec
json = codec platform text

abbrev pub request_bytes : Bytes
request_bytes = 0 ∷ 0 ∷ 0 ∷ 1 ∷ 1 ∷ []

abbrev pub answer_bytes : Bytes
answer_bytes = 0 ∷ 0 ∷ 0 ∷ 1 ∷ 2 ∷ []

abbrev inbound : Stream
inbound = chunk 0 (0 ∷ []) ∷ chunk 0 (1 ∷ 1 ∷ []) ∷ []

abbrev pub outbound : Stream
outbound = chunk 0 (0 ∷ 0 ∷ []) ∷ chunk 1 (2 ∷ []) ∷ []

inbound-Carries : Carries inbound request_bytes
unfolding Carries
inbound-Carries = (0 ∷ 1 ∷ 1 ∷ [], refl, ([], refl, refl))

pub outbound-Carries : Carries outbound answer_bytes
unfolding Carries
outbound-Carries = (1 ∷ 2 ∷ [], refl, ([], refl, refl))

pub request-framed : encode_frame json request ≡ ok request_bytes
unfolding encode_frame frame to_bytes set_field ◌=ₜ◌ predict_payload
request-framed = refl

pub answer-framed : encode_frame json answer ≡ ok answer_bytes
unfolding encode_frame frame to_bytes prediction_fields ◌=ₜ◌
answer-framed = refl

request-IsReadBack : IsReadBack json request
unfolding set_field ◌=ₜ◌ predict_payload
request-IsReadBack = record { some_text = λ e. ground (arith, e); same = refl }

pub answer-IsReadBack : IsReadBack json answer
unfolding prediction_fields ◌=ₜ◌
answer-IsReadBack = record { some_text = λ e. ground (arith, e); same = refl }

decode_frame-encode_frame_example :
    Delivers (decode_frame json inbound) (ok request) []
    × Delivers (read_message json inbound) (ok (some request)) []
decode_frame-encode_frame_example =
    decode_frame-encode_frame json request request_bytes [] inbound request-IsReadBack
      request-framed inbound-Carries

abbrev cut : Stream
cut = chunk 0 (0 ∷ 0 ∷ 9 ∷ 1 ∷ []) ∷ []

cut-Carries : Carries cut (to_bytes 4 9 ++ 1 ∷ [])
unfolding Carries to_bytes
cut-Carries = ([], refl, refl)

truncated_frame_example :
    ((decode_frame json cut).0 ≡ err connection_closed)
    × ((read_message json cut).0 ≡ answer_of (parse_payload json (1 ∷ [])))
truncated_frame_example = truncated_frame json 9 1 [] cut (omega arith) (omega arith) cut-Carries

abbrev requests : List (Fields × ℕ)
requests = (request, 3) ∷ []

answered : response_fields text (dispatch_request platform request 3 engine).0 ≡ answer
unfolding dispatch_request handle_predict load_and_predict run_prediction respond to_floats floats
    Engine.predict Engine.is_model_loaded OrderedDict.contains Engine.run_model response_fields
    get_field ◌=ₜ◌ strip lstrip set_field predict_payload
answered = refl

served-Answers : Answers json text (serve platform requests engine).0 (answer_bytes ∷ [])
unfolding serve
served-Answers = (answer_bytes, [], rw answered answer-framed, refl, refl)

handle_connection-serve_example :
    handle_connection platform text (3 ∷ 5 ∷ []) inbound engine
    ≡ (answer_bytes ∷ [], (serve platform requests engine).1)
handle_connection-serve_example =
    handle_connection-serve platform text requests (5 ∷ []) request_bytes inbound
      (answer_bytes ∷ []) engine (request_bytes, [], request-IsReadBack, request-framed, refl, refl)
      inbound-Carries served-Answers

abbrev pub settings : Settings
settings = record { max_retries = 2; max_pool_size = 1 }

-- A peer that answers on each new connection, while what the pool has is stale.
abbrev pub sockets : Sockets (Unit {0})
sockets = record {
  connect = λ c w. (ok tt, w);
  sendall = λ c b w. if c == 0 then (err Wire.os_error, w) else (ok tt, w);
  receive = λ c w. outbound;
  consumed = λ c s w. w;
  close = λ c w. w;
  sleep = λ n w. w;
}

abbrev fresh : State (Unit {0})
fresh = record { pool = []; next = 1; closed = 0 ∷ []; slept = 0; world = tt }

abbrev taken : State (Unit {0})
taken = record { pool = []; next = 2; closed = 0 ∷ []; slept = 0; world = tt }

fresh-acquired : acquire json sockets settings fresh ≡ (ok 1, taken)
unfolding acquire connected take_or_connect
fresh-acquired = refl

pub answer_sent :
    encode_frame json (response_fields text (dispatch_request platform request 3 engine).0)
    ≡ ok answer_bytes
answer_sent = rw answered answer-framed

pub answer_read :
    IsReadBack json (response_fields text (dispatch_request platform request 3 engine).0)
answer_read = rw answered answer-IsReadBack

abbrev exchanged : IsExchange platform text sockets settings fresh request 3 engine
exchanged = record {
  frame = request_bytes;
  framed = request-framed;
  request_json = request-IsReadBack;
  connection = 1;
  taken = taken;
  acquired = fresh-acquired;
  world = tt;
  sent = refl;
  inbound = inbound;
  arrives = inbound-Carries;
  answer = answer_bytes;
  answered = answer_sent;
  answer_json = answer_read;
  later = [];
  returns = outbound-Carries;
}

predict_end_to_end_example :
    ((predict python json sockets settings
        (codes "m")
        (4 ∷ [])
        (1 ∷ [])
        none
        (some (codes "a"))
        fresh).0
      ≡ client_view text (dispatch_request platform request 3 engine).0)
    × (handle_connection platform text (3 ∷ []) inbound engine
        ≡ (answer_bytes ∷ [], (dispatch_request platform request 3 engine).1))
predict_end_to_end_example =
    predict_end_to_end platform text python sockets settings (codes "m") (4 ∷ []) (1 ∷ []) none
      (some (codes "a")) fresh 3 engine exchanged (omega arith) (λ v. refl)
