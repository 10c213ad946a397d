-- ===== src/Server/Connection.antt =====
-- `VsockRPCServer._handle_connection` of enclave/server.py, on a socket as the stream that it
-- receives and the frames that it sends. The server's stop event stays
-- unset, and its sends succeed.
use confidential_ml_feature.Prelude.{ℕ, none, some, List, [], ◌∷◌, Text, Bytes, Result, ok, err}
use confidential_ml_feature.Wire.{JsonCodec, Error, Stream, encode_frame}
use confidential_ml_feature.Wire.Server.{read_message}
use confidential_ml_feature.Engine.{Platform, Engine}
use confidential_ml_feature.Server.{Message, dispatch_request}
use confidential_ml_feature.Server.Rendering.{response_fields}

module _ {Keys Model : Type 0} (p : Platform Keys Model) (text : Message → Text) where
  abbrev pub codec : JsonCodec
  codec = record { dumps = p.dumps; loads = p.loads }

  -- After `_write_message`: the frame and what the later rounds send, or nothing where it raises.
  unfoldable pub after_write :
      Result Error Bytes
      → List Bytes × Engine Keys Model
      → Engine Keys Model
      → List Bytes × Engine Keys Model
  after_write (ok bytes) later engine = (bytes ∷ later.0, later.1)
  after_write (err e) later engine = ([], engine)

  -- The loop, with what the clock measures in each round, which bounds the rounds. It ends at the end
  -- of the stream and at any exception.
  unfoldable pub handle_connection :
      List ℕ → Stream → Engine Keys Model → List Bytes × Engine Keys Model
  handle_connection [] s engine = ([], engine)
  handle_connection (latency ∷ latencies) s engine = elim (read_message codec s).0 [
    | err e ↦ ([], engine)
    | ok none ↦ ([], engine)
    | ok (some request) ↦
        let (response, engine') = dispatch_request p request latency engine in
        after_write (encode_frame codec (response_fields text response))
          (handle_connection latencies (read_message codec s).1 engine') engine'
  ]
