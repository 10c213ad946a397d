-- ===== src/Wire/RoundTrip.antt =====
-- `_encode_frame` and `_write_message` against `_decode_frame` and `_read_message`.
use mathlib.Core.Path.{subst}
use confidential_ml_feature.Prelude.{
  ℕ, suc, ◌^◌, ◌<◌, ◌≡◌, refl, sym, ap, ◌≢◌, Option, some, [], ◌∷◌, ◌++◌, append_assoc, arith,
  Bytes, length, Result, ok,
}
use confidential_ml_feature.Python.Json.{Fields, obj}
use confidential_ml_feature.Python.IntBytes.{to_bytes, from_bytes-to_bytes_4, length-to_bytes}
use confidential_ml_feature.Wire.{
  JsonCodec, Error, Stream, full, collect, frame, unpack, encode_frame, parse_payload, or_closed,
  or_short,
}
use confidential_ml_feature.Wire.Chunks.{collect_bytes, Carries}
use confidential_ml_feature.Wire.Client
use confidential_ml_feature.Wire.Server

-- The JSON text of the mapping is not empty, and is read back as the mapping.
pub record IsReadBack (json : JsonCodec) (payload : Fields) : Type 0 where
  pub some_text : json.dumps (obj payload) ≢ []
  pub same : json.loads (json.dumps (obj payload)) ≡ some (obj payload)

frame-eq-ok :
    (payload bytes : Bytes)
    → frame payload ≡ ok bytes
    → (length payload < 2 ^ 32) × (bytes ≡ to_bytes 4 (length payload) ++ payload)
unfolding frame
frame-eq-ok payload bytes e = ground arith

pub unpack-to_bytes : (n : ℕ) → n < 2 ^ 32 → unpack (to_bytes 4 n) ≡ ok n
unfolding unpack
unpack-to_bytes n h = ground (arith, length-to_bytes 4 n, from_bytes-to_bytes_4 n h)

-- The two reads of a frame: its header, and its payload of a length above 0.
pub record Framed (payload rest : Bytes) (s : Stream) : Type 0 where
  pub header : Bytes
  pub after : Stream
  pub read_header : collect s 4 [] ≡ (full header, after)
  pub size : unpack header ≡ ok (length payload)
  pub read_payload : (collect after (length payload) []).0 ≡ full payload
  pub left : Carries (collect after (length payload) []).1 rest

pub frame-Framed :
    (payload bytes rest : Bytes) (s : Stream)
    → frame payload ≡ ok bytes
    → Carries s (bytes ++ rest)
    → Framed payload rest s
frame-Framed payload bytes rest s e c =
    let (small, split) = frame-eq-ok payload bytes e in
    let n = length payload in
    let whole : bytes ++ rest ≡ to_bytes 4 n ++ (payload ++ rest) = rw (split, append_assoc) refl in
    let first =
      collect_bytes s 4 (to_bytes 4 n) (payload ++ rest) (length-to_bytes 4 n)
        (subst (Carries s) whole c) in
    let second = collect_bytes (collect s 4 []).1 n payload rest refl first.left in
    record {
      header = to_bytes 4 n;
      after = (collect s 4 []).1;
      read_header = ground (arith, first.got);
      size = unpack-to_bytes n small;
      read_payload = second.got;
      left = second.left;
    }

-- What either end makes of a frame.
pub record Delivers {R : Type 0} (r : R × Stream) (answer : R) (rest : Bytes) : Type 0 where
  pub answered : r.0 ≡ answer
  pub left : Carries r.1 rest

parse_payload-dumps :
    (json : JsonCodec) (payload : Fields)
    → IsReadBack json payload
    → parse_payload json (json.dumps (obj payload)) ≡ ok payload
unfolding parse_payload
parse_payload-dumps json payload back = rw (back.same, parse_payload) refl

-- The two ends, over the reads of a frame with a payload of at least one byte.
module _ (json : JsonCodec) (b : ℕ) (bs header : Bytes) (s after : Stream) (fields : Fields)
    (read_header : collect s 4 [] ≡ (full header, after))
    (size : unpack header ≡ ok (suc (length bs)))
    (read_payload : (collect after (suc (length bs)) []).0 ≡ full (b ∷ bs))
    (parsed : parse_payload json (b ∷ bs) ≡ ok fields) where
  client_reads : Client.decode_frame json s ≡ (ok fields, (collect after (suc (length bs)) []).1)
  unfolding Client.decode_frame Client.with_header Client.read_payload Client.finish or_closed
  client_reads = rw read_header (rw size (rw read_payload (rw parsed refl)))

  server_reads :
      Server.read_message json s ≡ (ok (some fields), (collect after (suc (length bs)) []).1)
  unfolding Server.read_message Server.with_header Server.read_payload Server.finish or_short
  server_reads = rw read_header (rw size (rw read_payload (rw parsed refl)))

both_read :
    (json : JsonCodec) (payload rest : Bytes) (s : Stream) (fields : Fields)
    → payload ≢ []
    → Framed payload rest s
    → parse_payload json payload ≡ ok fields
    → Delivers (Client.decode_frame json s) (ok fields) rest
      × Delivers (Server.read_message json s) (ok (some fields)) rest
both_read json [] rest s fields ne f parsed = absurd (ne refl)
both_read json (b ∷ bs) rest s fields ne f parsed =
    let c =
      client_reads json b bs f.header s f.after fields f.read_header f.size f.read_payload parsed in
    let d =
      server_reads json b bs f.header s f.after fields f.read_header f.size f.read_payload parsed in
    (
      record {
        answered = ap (λ (r : Result Error Fields × Stream). r.0) c;
        left = subst (λ (r : Result Error Fields × Stream). Carries r.1 rest) (sym c) f.left;
      },
      record {
        answered = ap (λ (r : Result Error (Option Fields) × Stream). r.0) d;
        left =
            subst (λ (r : Result Error (Option Fields) × Stream). Carries r.1 rest) (sym d) f.left;
      },
    )

-- For a mapping whose JSON text is not empty and is read back, and whose frame can be packed: from a
-- stream that carries the frame and then other bytes, cut into pieces in any way, both ends read the
-- mapping and leave a stream that carries the other bytes.
pub decode_frame-encode_frame :
    (json : JsonCodec) (payload : Fields) (bytes rest : Bytes) (s : Stream)
    → IsReadBack json payload
    → encode_frame json payload ≡ ok bytes
    → Carries s (bytes ++ rest)
    → Delivers (Client.decode_frame json s) (ok payload) rest
      × Delivers (Server.read_message json s) (ok (some payload)) rest
unfolding encode_frame
decode_frame-encode_frame json payload bytes rest s back e c =
    both_read json (json.dumps (obj payload)) rest s payload back.some_text
      (frame-Framed (json.dumps (obj payload)) bytes rest s e c)
      (parse_payload-dumps json payload back)
