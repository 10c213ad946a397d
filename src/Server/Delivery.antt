-- ===== src/Server/Delivery.antt =====
-- `_handle_connection` against the requests that a client sends and `_dispatch_request`'s answers.
use mathlib.Core.Path.{subst}
use confidential_ml_feature.Prelude.{
  ℕ, ◌≡◌, refl, ◌∙◌, some, List, [], ◌∷◌, ◌++◌, arith, Text, Bytes, ok,
}
use confidential_ml_feature.Python.Json.{Fields}
use confidential_ml_feature.Wire.{JsonCodec, Stream, chunk, failed, encode_frame, collect, or_short}
use confidential_ml_feature.Wire.Server.{read_message, with_header}
use confidential_ml_feature.Wire.Chunks.{Carries}
use confidential_ml_feature.Wire.RoundTrip.{IsReadBack, decode_frame-encode_frame}
use confidential_ml_feature.Engine.{Platform, Engine}
use confidential_ml_feature.Server.{Message, Response, dispatch_request, serve}
use confidential_ml_feature.Server.Rendering.{response_fields}
use confidential_ml_feature.Server.Connection.{codec, after_write, handle_connection}

-- The bytes are the frames of the requests, in order, and each request is read back from its JSON.
abbrev pub Sent : JsonCodec → List (Fields × ℕ) → Bytes → Type 0
Sent json [] bytes = bytes ≡ []
Sent json ((request, latency) ∷ requests) bytes =
    (f : Bytes) × (rest : Bytes) × IsReadBack json request
    × (encode_frame json request ≡ ok f)
    × (bytes ≡ f ++ rest)
    × Sent json requests rest

-- The frames are those of the responses, in order.
abbrev pub Answers : JsonCodec → (Message → Text) → List Response → List Bytes → Type 0
Answers json text [] frames = frames ≡ []
Answers json text (r ∷ rs) frames =
    (f : Bytes) × (rest : List Bytes) × (encode_frame json (response_fields text r) ≡ ok f)
    × (frames ≡ f ∷ rest)
    × Answers json text rs rest

abbrev pub readings : List (Fields × ℕ) → List ℕ
readings [] = []
readings ((request, latency) ∷ requests) = latency ∷ readings requests

module _ {Keys Model : Type 0} (p : Platform Keys Model) (text : Message → Text) where
  -- One round, for a request that is read and a response that is written.
  round :
      (request : Fields) (latency : ℕ) (latencies : List ℕ) (s : Stream) (f : Bytes)
      (engine : Engine Keys Model)
      → (read_message (codec p text) s).0 ≡ ok (some request)
      → encode_frame
          (codec p text)
          (response_fields text (dispatch_request p request latency engine).0)
        ≡ ok f
      → handle_connection p text (latency ∷ latencies) s engine ≡ (
        f
            ∷ (handle_connection p text latencies
                (read_message (codec p text) s).1
                (dispatch_request p request latency engine).1).0,
        (handle_connection p text latencies
            (read_message (codec p text) s).1
            (dispatch_request p request latency engine).1).1,
      )
  unfolding handle_connection after_write
  round request latency latencies s f engine read written =
      rw (read, handle_connection) (rw written refl)

  -- The end of the stream.
  closed :
      (latencies : List ℕ) (s : Stream) (engine : Engine Keys Model)
      → Carries s []
      → handle_connection p text latencies s engine ≡ ([], engine)
  unfolding handle_connection Carries read_message with_header collect or_short
  closed [] s engine c = refl
  closed (l ∷ ls) [] engine c = refl
  closed (l ∷ ls) (failed e ∷ s) engine c = absurd c
  closed (l ∷ ls) (chunk b bs ∷ s) engine (rest, e, c) = absurd (ground arith)

  -- For requests that JSON gives back, sent as frames that arrive in pieces of any sizes, with the
  -- clock's readings for each and perhaps more: if every answer of `serve` can be framed, then the
  -- connection sends exactly these frames in this order, ends when the stream does, and leaves the
  -- engine that `serve` leaves.
  pub handle_connection-serve :
      (requests : List (Fields × ℕ)) (more : List ℕ) (bytes : Bytes) (s : Stream)
      (frames : List Bytes) (engine : Engine Keys Model)
      → Sent (codec p text) requests bytes
      → Carries s bytes
      → Answers (codec p text) text (serve p requests engine).0 frames
      → handle_connection p text (readings requests ++ more) s engine
        ≡ (frames, (serve p requests engine).1)
  unfolding serve
  handle_connection-serve [] more bytes s frames engine sent c answers =
      closed more s engine (subst (Carries s) sent c) ∙ rw (answers) refl
  handle_connection-serve ((request, latency) ∷ requests) more bytes s frames engine
        (f, rest, back, framed, split, sent) c (g, later, written, all, answers) =
      let (client, server) =
        decode_frame-encode_frame (codec p text) request f rest s back framed
          (subst (Carries s) split c) in
      let next =
        handle_connection-serve requests more rest (read_message (codec p text) s).1 later
          (dispatch_request p request latency engine).1 sent server.left answers in
      round request latency (readings requests ++ more) s g engine server.answered written
      ∙ rw next (rw all refl)
