-- ===== src/EndToEnd/Exchange.antt =====
-- One call of `EnclaveClient.predict`, from its payload over the frames and the enclave's handlers
-- to what it returns.
use confidential_ml_feature.Prelude.{
  ℕ, ◌<◌, ◌≡◌, refl, sym, ◌∙◌, Option, some, List, [], ◌∷◌, ◌++◌, append-nil, Text, Bytes, ok,
}
use confidential_ml_feature.Python.Codes.{codes}
use confidential_ml_feature.Python.Json.{Fields, str, float, set_field}
use confidential_ml_feature.Wire.{JsonCodec, Stream, encode_frame}
use confidential_ml_feature.Wire.Client.{decode_frame}
use confidential_ml_feature.Wire.Chunks.{Carries}
use confidential_ml_feature.Wire.RoundTrip.{IsReadBack}
use confidential_ml_feature.Engine.{Platform, Engine}
use confidential_ml_feature.Server.{Message, dispatch_request, serve}
use confidential_ml_feature.Server.Rendering.{response_fields}
use confidential_ml_feature.Server.Connection.{codec, handle_connection}
use confidential_ml_feature.EnclaveClient.{
  Sockets, Settings, State, acquire, attempt, exchange, after_send, receive_response, settle,
}
use confidential_ml_feature.EnclaveClient.Responses.{
  Conversions, predict_payload, normalize, normalize_answer, predict,
}
use confidential_ml_feature.EnclaveClient.Recovery.{send_request_recovers}
use confidential_ml_feature.EndToEnd.View.{client_view, normalize-response_fields}
use confidential_ml_feature.Server.Delivery.{handle_connection-serve}
use confidential_ml_feature.Wire.RoundTrip.{decode_frame-encode_frame}

module _ {World : Type 0} (json : JsonCodec) (sockets : Sockets World) (settings : Settings) where
  -- An attempt on a connection that takes the request and delivers a response.
  attempt_delivers :
      (request : Bytes) (c : ℕ) (st : State World) (world : World) (st' : State World)
      (response : Fields)
      → acquire json sockets settings st ≡ (ok c, st')
      → sockets.sendall c request st'.world ≡ (ok tt, world)
      → (decode_frame json (sockets.receive c world)).0 ≡ ok response
      → (attempt json sockets settings request st).0 ≡ ok response
  unfolding attempt exchange after_send receive_response settle
  attempt_delivers request c st world st' response acquired sent read =
      rw acquired (rw sent (rw read refl))

-- What a call needs of the network and of JSON: the client gets a connection, which takes the frame
-- of the request; the enclave receives it, in pieces of any sizes; the host receives what the enclave
-- sends, in pieces, and perhaps more; and both mappings are read back from their JSON texts.
pub record IsExchange {World Keys Model : Type 0} (p : Platform Keys Model) (text : Message → Text)
    (sockets : Sockets World) (settings : Settings) (st : State World) (request : Fields)
    (latency : ℕ) (engine : Engine Keys Model) : Type 0 where
  pub frame : Bytes
  pub framed : encode_frame (codec p text) request ≡ ok frame
  pub request_json : IsReadBack (codec p text) request
  pub connection : ℕ
  pub taken : State World
  pub acquired : acquire (codec p text) sockets settings st ≡ (ok connection, taken)
  pub world : World
  pub sent : sockets.sendall connection frame taken.world ≡ (ok tt, world)
  pub inbound : Stream
  pub arrives : Carries inbound frame
  pub answer : Bytes
  pub answered :
      encode_frame
        (codec p text)
        (response_fields text (dispatch_request p request latency engine).0)
      ≡ ok answer
  pub answer_json :
      IsReadBack (codec p text) (response_fields text (dispatch_request p request latency engine).0)
  pub later : Bytes
  pub returns : Carries (sockets.receive connection world) (answer ++ later)

-- The request of `predict`, with its action.
abbrev pub request_of : Conversions → Text → List ℕ → Bytes → Option Bytes → Option Text → Fields
request_of python name features key blob tenant_id =
    set_field (codes "action") (str (codes "predict"))
      (predict_payload python name features key blob tenant_id)

module _ {World Keys Model : Type 0} (p : Platform Keys Model) (text : Message → Text)
    (python : Conversions) (sockets : Sockets World) (settings : Settings) where
  client_side :
      (name : Text) (features : List ℕ) (key : Bytes) (blob : Option Bytes)
      (tenant_id : Option Text) (st : State World) (latency : ℕ) (engine : Engine Keys Model)
      → IsExchange p text sockets settings st
          (request_of python name features key blob tenant_id)
          latency
          engine
      → 0 < settings.max_retries
      → (predict python (codec p text) sockets settings name features key blob tenant_id st).0
        ≡ normalize python (
            response_fields text
              (dispatch_request p
                (request_of python name features key blob tenant_id)
                latency
                engine).0)
  unfolding predict normalize_answer
  client_side name features key blob tenant_id st latency engine x tries =
      let request = request_of python name features key blob tenant_id in
      let response = response_fields text (dispatch_request p request latency engine).0 in
      let (client, server) =
        decode_frame-encode_frame (codec p text) response x.answer x.later
          (sockets.receive x.connection x.world) x.answer_json x.answered x.returns in
      rw
        (send_request_recovers (codec p text) sockets settings 0 (codes "predict")
          (predict_payload python name features key blob tenant_id) x.frame st st response x.framed
          tries refl
          (attempt_delivers (codec p text) sockets settings x.frame x.connection st x.world x.taken
            response x.acquired x.sent client.answered))
        refl

  -- If an attempt is allowed, the first one gets a connection, the frames arrive in pieces of any
  -- sizes, JSON gives back both mappings, and `float` of a float is that float: then `predict` returns
  -- the enclave's answer to its request, as the host sees it, and the enclave sends the frame of that
  -- answer and nothing else.
  pub predict_end_to_end :
      (name : Text) (features : List ℕ) (key : Bytes) (blob : Option Bytes)
      (tenant_id : Option Text) (st : State World) (latency : ℕ) (engine : Engine Keys Model)
      (x : IsExchange p text sockets settings st
        (request_of python name features key blob tenant_id)
        latency
        engine)
      → 0 < settings.max_retries
      → ((v : ℕ) → python.to_float (float v) ≡ some v)
      → ((predict python (codec p text) sockets settings name features key blob tenant_id st).0
          ≡ client_view text
              (dispatch_request p
                (request_of python name features key blob tenant_id)
                latency
                engine).0)
        × (handle_connection p text (latency ∷ []) x.inbound engine ≡ (
          x.answer ∷ [],
          (dispatch_request p
              (request_of python name features key blob tenant_id)
              latency
              engine).1,
        ))
  unfolding serve
  predict_end_to_end name features key blob tenant_id st latency engine x tries exact =
      let request = request_of python name features key blob tenant_id in
      (
        client_side name features key blob tenant_id st latency engine x tries
            ∙ normalize-response_fields python text (dispatch_request p request latency engine).0
                exact,
        handle_connection-serve p text ((request, latency) ∷ []) [] x.frame x.inbound
            (x.answer ∷ []) engine
            (x.frame, [], x.request_json, x.framed, sym (append-nil x.frame), refl) x.arrives
            (x.answer, [], x.answered, refl, refl),
      )
