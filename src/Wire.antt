-- ===== src/Wire.antt =====
-- The length-prefixed frames between host and enclave, at both ends: `_encode_frame`, `_recv_exact`
-- and `_decode_frame` of feature_store/services/enclave_client.py, `_write_message`, `_recv_exact`
-- and `_read_message` of enclave/server.py. The texts of `json` are parameters.

pub mod Client
pub mod Server
pub mod Chunks
pub mod RoundTrip
pub mod Truncated
use confidential_ml_feature.Prelude.{
  ℕ, zero, suc, ◌+◌, ◌-◌, ◌^◌, Option, none, some, List, [], ◌∷◌, ◌++◌, ltb, ◌==◌, if◌then◌else◌,
  Bytes, length, take, drop, Result, ok, err,
}
use confidential_ml_feature.Python.Json.{Json, Fields, obj}
use confidential_ml_feature.Python.IntBytes.{to_bytes, from_bytes}

-- `json.dumps(_, separators=(",", ":")).encode("utf-8")`, and `json.loads(_.decode("utf-8"))`, with
-- `none` for what either of the two steps raises.
pub record JsonCodec : Type 0 where
  pub dumps : Json → Bytes
  pub loads : Bytes → Option Json

-- What a call on a socket raises: TimeoutError, or another OSError.
pub data Failure : Type 0 where
  timed_out os_error : Failure

-- What the code here raises; `no_vsock` is the EnclaveCommunicationError of
-- `_default_socket_factory`.
pub data Error : Type 0 where
  socket : Failure → Error
  connection_closed struct_error no_vsock : Error
  json_error empty_frame closed_mid_frame not_an_object : Error

-- What the peer's end of a socket delivers: pieces of one byte or more, or an error. The end of the
-- list is the end of the stream.
pub data Arrival : Type 0 where
  chunk : ℕ → Bytes → Arrival
  failed : Failure → Arrival

abbrev pub Stream : Type 0
Stream = List Arrival

-- What is left of a piece, before what comes later.
abbrev pub put_back : Bytes → Stream → Stream
put_back [] s = s
put_back (b ∷ bs) s = chunk b bs ∷ s

-- How the loop of `_recv_exact` ends: with all bytes, at the end of the stream, or by an exception.
pub data Received : Type 0 where
  full ended : Bytes → Received
  broken : Failure → Received

-- The loop: `missing` is `length - len(buffer)`. A `recv` takes no more than that of a piece.
unfoldable pub collect : Stream → ℕ → Bytes → Received × Stream
collect s zero buffer = (full buffer, s)
collect [] (suc missing) buffer = (ended buffer, [])
collect (failed e ∷ s) (suc missing) buffer = (broken e, s)
collect (chunk b bs ∷ s) (suc missing) buffer =
    let rest = collect s (missing - length bs) (buffer ++ b ∷ bs) in
    if ltb (length bs) missing
    then rest
    else (full (buffer ++ b ∷ take missing bs), put_back (drop missing bs) s)

-- struct.pack("!I", len(payload)) + payload
unfoldable pub frame : Bytes → Result Error Bytes
frame payload =
    if ltb (length payload) (2 ^ 32)
    then ok (to_bytes 4 (length payload) ++ payload)
    else err struct_error

-- struct.unpack("!I", header)[0]
unfoldable pub unpack : Bytes → Result Error ℕ
unpack header = if length header == 4 then ok (from_bytes header) else err struct_error

-- isinstance(_, dict)
abbrev pub as_dict : Json → Result Error Fields
as_dict (obj fields) = ok fields
as_dict _ = err not_an_object

-- `_recv_exact` of the client.
unfoldable pub or_closed : Received → Result Error Bytes
or_closed (full b) = ok b
or_closed (ended b) = err connection_closed
or_closed (broken e) = err (socket e)

-- `_recv_exact` of the server.
unfoldable pub or_short : Received → Result Error (Option Bytes)
or_short (full b) = ok (some b)
or_short (ended []) = ok none
or_short (ended (b ∷ bs)) = ok (some (b ∷ bs))
or_short (broken e) = err (socket e)

module _ (json : JsonCodec) where
  -- `_encode_frame`, and the frame of `_write_message`.
  unfoldable pub encode_frame : Fields → Result Error Bytes
  encode_frame payload = frame (json.dumps (obj payload))

  -- json.loads(payload.decode("utf-8")), which has to be an object.
  unfoldable pub parse_payload : Bytes → Result Error Fields
  parse_payload payload = elim (json.loads payload) [ none ↦ err json_error | some v ↦ as_dict v ]
