-- ===== src/EnclaveClient.antt =====
-- feature_store/services/enclave_client.py: `EnclaveClient` with its pool of connections and the
-- retries of `send_request`. A connection is the number under which it was opened.

pub mod Threads
pub mod Caught
pub mod Pool
pub mod Retry
pub mod Recovery
pub mod Responses
pub mod Mock
pub mod Resolved
use confidential_ml_feature.Prelude.{
  ℕ, zero, suc, ◌+◌, ◌-◌, ◌*◌, ◌^◌, List, [], ◌∷◌, ltb, leb, ◌==◌, if◌then◌else◌, Text, Bytes,
  length, Result, ok, err,
}
use confidential_ml_feature.Python.Codes.{codes}
use confidential_ml_feature.Python.Json.{Fields, set_field, str}
use confidential_ml_feature.Wire.{
  JsonCodec, Stream, encode_frame, socket, timed_out, os_error, connection_closed, struct_error,
  no_vsock, json_error, empty_frame, closed_mid_frame, not_an_object,
}
use confidential_ml_feature.Wire
use confidential_ml_feature.Wire.Client.{decode_frame}

-- What `EnclaveClient` raises: its own errors, those that report the enclave's, and what no clause
-- catches.
pub data Error : Type 0 where
  timeout communication malformed : Error
  uncaught : Wire.Error → Error

-- The sockets of the host, with the state of the world beyond them: `connect` is the socket factory,
-- `receive` what a connection is going to deliver, and `consumed` leaves the rest of that for later.
pub record Sockets (World : Type 0) : Type 0 where
  pub connect : ℕ → World → Result Wire.Error (Unit {0}) × World
  pub sendall : ℕ → Bytes → World → Result Wire.Failure (Unit {0}) × World
  pub receive : ℕ → World → Stream
  pub consumed : ℕ → Stream → World → World
  pub close : ℕ → World → World
  pub sleep : ℕ → World → World

-- The settings; a negative number does what 0 does.
pub record Settings : Type 0 where
  pub max_retries : ℕ
  pub max_pool_size : ℕ

-- The pool, the newest connection first; the number of the next connection; the connections that
-- were closed; and the tenths of a second that were slept.
pub record State (World : Type 0) : Type 0 where
  pub pool : List ℕ
  pub next : ℕ
  pub closed : List ℕ
  pub slept : ℕ
  pub world : World

-- The `except` clauses of `send_request`, in their order. TimeoutError is an OSError, too, and
-- ConnectionError is one.
pub data Class : Type 0 where
  times_out breaks is_malformed escapes : Class

unfoldable pub class_of : Wire.Error → Class
class_of (socket timed_out) = times_out
class_of (socket os_error) = breaks
class_of connection_closed = breaks
class_of json_error = is_malformed
class_of empty_frame = is_malformed
class_of closed_mid_frame = is_malformed
class_of not_an_object = is_malformed
class_of struct_error = escapes
class_of no_vsock = escapes

-- min(0.1 * (2 ** (attempt - 1)), 1.0), in tenths.
unfoldable pub backoff : ℕ → ℕ
backoff attempt = if ltb (2 ^ (attempt - 1)) 10 then 2 ^ (attempt - 1) else 10

module _ {World : Type 0} (json : JsonCodec) (sockets : Sockets World) (settings : Settings) where
  -- `_safe_close`
  unfoldable pub safe_close : ℕ → State World → State World
  safe_close c st = record st { closed = c ∷ st.closed; world = sockets.close c st.world }

  -- The call of the socket factory, which numbers the connection.
  unfoldable pub connected :
      Result Wire.Error (Unit {0}) × World → State World → Result Wire.Error ℕ × State World
  connected (ok u, world) st = (ok st.next, record st { next = suc st.next; world = world })
  connected (err e, world) st = (err e, record st { world = world })

  unfoldable pub take_or_connect : List ℕ → State World → Result Wire.Error ℕ × State World
  take_or_connect (c ∷ cs) st = (ok c, record st { pool = cs })
  take_or_connect [] st = connected (sockets.connect st.next st.world) st

  -- `_acquire_connection`
  unfoldable pub acquire : State World → Result Wire.Error ℕ × State World
  acquire st = take_or_connect st.pool st

  -- `_release_connection`
  unfoldable pub release : ℕ → State World → State World
  unfolding safe_close
  release c st =
      if leb settings.max_pool_size (length st.pool)
      then safe_close c st
      else record st { pool = c ∷ st.pool }

  -- `_discard_connection`, in the clauses that catch.
  unfoldable pub discard : Wire.Error → ℕ → State World → State World
  unfolding safe_close class_of
  discard e c st = elim (class_of e) [ escapes ↦ st | _ ↦ safe_close c st ]

  -- `_decode_frame` of what the connection delivers.
  unfoldable pub receive_response : ℕ → State World → Result Wire.Error Fields × State World
  receive_response c st =
      let (r, rest) = decode_frame json (sockets.receive c st.world) in
      (r, record st { world = sockets.consumed c rest st.world })

  -- Release or discard, by how the response was read.
  unfoldable pub settle :
      ℕ → Result Wire.Error Fields × State World → Result Wire.Error Fields × State World
  unfolding release discard
  settle c (ok response, st) = (ok response, release c st)
  settle c (err e, st) = (err e, discard e c st)

  unfoldable pub after_send :
      ℕ
      → Result Wire.Failure (Unit {0}) × World
      → State World
      → Result Wire.Error Fields × State World
  after_send c (ok u, world) st = settle c (receive_response c (record st { world = world }))
  after_send c (err e, world) st =
      (err (Wire.socket e), discard (Wire.socket e) c (record st { world = world }))

  unfoldable pub exchange :
      Bytes → Result Wire.Error ℕ × State World → Result Wire.Error Fields × State World
  exchange request (ok c, st) = after_send c (sockets.sendall c request st.world) st
  exchange request (err e, st) = (err e, st)

  -- The body of the `try`, with the clean-up of the clause that its exception comes to.
  unfoldable pub attempt : Bytes → State World → Result Wire.Error Fields × State World
  attempt request st = exchange request (acquire st)

  unfoldable pub sleep_before_retry : ℕ → State World → State World
  unfolding backoff
  sleep_before_retry number st = record st {
    slept = st.slept + backoff number;
    world = sockets.sleep (backoff number) st.world;
  }

  -- The `except` clauses: raise, or go on to what the `later` attempts return.
  unfoldable pub handle :
      Class
      → Wire.Error
      → ℕ
      → State World
      → Result Error Fields × State World
      → Result Error Fields × State World
  handle times_out e left st later = if left == 0 then (err timeout, st) else later
  handle breaks e left st later = if left == 0 then (err communication, st) else later
  handle is_malformed e left st later = (err malformed, st)
  handle escapes e left st later = (err (uncaught e), st)

  unfoldable pub conclude :
      Result Wire.Error Fields × State World
      → ℕ
      → Result Error Fields × State World
      → Result Error Fields × State World
  conclude (ok response, st) left later = (ok response, st)
  conclude (err e, st) left later = handle (class_of e) e left st later

  -- The loop over the attempts that are left, the next of which has this number.
  unfoldable pub retry : ℕ → ℕ → Bytes → State World → Result Error Fields × State World
  retry zero number request st = (err communication, st)
  retry (suc left) number request st =
      let tried = attempt request st in
      conclude tried left (retry left (suc number) request (sleep_before_retry number tried.1))

  unfoldable pub send_frame :
      Result Wire.Error Bytes → State World → Result Error Fields × State World
  send_frame (ok request) st = retry settings.max_retries 1 request st
  send_frame (err e) st = (err (uncaught e), st)

  -- `send_request`
  unfoldable pub send_request : Text → Fields → State World → Result Error Fields × State World
  send_request action payload st =
      send_frame (encode_frame json (set_field (codes "action") (str action) payload)) st
