-- ===== src/Wire/Server.antt =====
-- `_read_message` of enclave/server.py.
use confidential_ml_feature.Prelude.{
  ℕ, zero, suc, Option, none, some, [], Bytes, Result, ok, err, ◌>>=◌,
}
use confidential_ml_feature.Python.Json.{Fields}
use confidential_ml_feature.Wire.{
  JsonCodec, Error, Stream, collect, unpack, parse_payload, or_short, empty_frame, closed_mid_frame,
}

module _ (json : JsonCodec) where
  unfoldable pub finish :
      Result Error (Option Bytes) × Stream → Result Error (Option Fields) × Stream
  finish (ok (some payload), s) = (do fields ← parse_payload json payload; ok (some fields), s)
  finish (ok none, s) = (err closed_mid_frame, s)
  finish (err e, s) = (err e, s)

  unfoldable pub read_payload : Result Error ℕ → Stream → Result Error (Option Fields) × Stream
  read_payload (err e) s = (err e, s)
  read_payload (ok zero) s = (err empty_frame, s)
  read_payload (ok (suc n)) s = let (r, rest) = collect s (suc n) [] in finish (or_short r, rest)

  unfoldable pub with_header :
      Result Error (Option Bytes) × Stream → Result Error (Option Fields) × Stream
  with_header (ok (some header), s) = read_payload (unpack header) s
  with_header (ok none, s) = (ok none, s)
  with_header (err e, s) = (err e, s)

  -- `_read_message`: `ok none` where the stream ends before a frame.
  unfoldable pub read_message : Stream → Result Error (Option Fields) × Stream
  read_message s = let (r, rest) = collect s 4 [] in with_header (or_short r, rest)
