-- ===== src/Wire/Truncated.antt =====
-- Streams that end inside a frame: what `_decode_frame` and `_read_message` make of them.
use confidential_ml_feature.Prelude.{
  ℕ, zero, suc, ◌^◌, ◌<◌, ◌≡◌, refl, Option, some, [], ◌∷◌, ◌++◌, arith, Bytes, length, Result, ok,
  err, ◌>>=◌,
}
use confidential_ml_feature.Python.Json.{Fields}
use confidential_ml_feature.Python.IntBytes.{to_bytes, length-to_bytes}
use confidential_ml_feature.Wire.{
  JsonCodec, Error, Stream, full, ended, connection_closed, collect, unpack, parse_payload,
  or_closed, or_short,
}
use confidential_ml_feature.Wire.Chunks.{Carries, collect_bytes, collect_short}
use confidential_ml_feature.Wire.RoundTrip.{unpack-to_bytes}
use confidential_ml_feature.Wire.Client
use confidential_ml_feature.Wire.Server

-- What the server answers where the payload ends after `part`.
abbrev pub answer_of : Result Error Fields → Result Error (Option Fields)
answer_of (ok fields) = ok (some fields)
answer_of (err e) = err e

module _ (json : JsonCodec) (n : ℕ) (header : Bytes) (s after : Stream) (b : ℕ) (bs : Bytes)
    (read_header : collect s 4 [] ≡ (full header, after)) (size : unpack header ≡ ok (suc n))
    (cut : collect after (suc n) [] ≡ (ended (b ∷ bs), [])) where
  client_closed : (Client.decode_frame json s).0 ≡ err connection_closed
  unfolding Client.decode_frame Client.with_header Client.read_payload Client.finish or_closed
  client_closed = rw read_header (rw size (rw cut refl))

  server_parses : (Server.read_message json s).0 ≡ answer_of (parse_payload json (b ∷ bs))
  unfolding Server.read_message Server.with_header Server.read_payload Server.finish or_short
  server_parses = rw read_header (rw size (rw cut (go (parse_payload json (b ∷ bs)))))
    where
      go : (r : Result Error Fields) → (r >>= λ fields. ok (some fields)) ≡ answer_of r
      go (ok f) = refl
      go (err e) = refl

-- From a stream that ends inside the payload of a frame, after its first byte, with a length that
-- fits the header: the client always raises ConnectionError, but the server takes what there is of
-- the payload for the whole of it.
pub truncated_frame :
    (json : JsonCodec) (n b : ℕ) (bs : Bytes) (s : Stream)
    → n < 2 ^ 32
    → suc (length bs) < n
    → Carries s (to_bytes 4 n ++ b ∷ bs)
    → ((Client.decode_frame json s).0 ≡ err connection_closed)
      × ((Server.read_message json s).0 ≡ answer_of (parse_payload json (b ∷ bs)))
truncated_frame json zero b bs s small short c = absurd (omega (arith, short))
truncated_frame json (suc n) b bs s small short c =
    let first = collect_bytes s 4 (to_bytes 4 (suc n)) (b ∷ bs) (length-to_bytes 4 (suc n)) c in
    let read_header : collect s 4 [] ≡ (full (to_bytes 4 (suc n)), (collect s 4 []).1) =
      ground (arith, first.got) in
    let size = unpack-to_bytes (suc n) small in
    let cut = collect_short (collect s 4 []).1 (suc n) (b ∷ bs) [] first.left short in
    (
      client_closed json n (to_bytes 4 (suc n)) s (collect s 4 []).1 b bs read_header size cut,
      server_parses json n (to_bytes 4 (suc n)) s (collect s 4 []).1 b bs read_header size cut,
    )
