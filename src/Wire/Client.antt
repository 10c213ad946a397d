-- ===== src/Wire/Client.antt =====
-- `_decode_frame` of feature_store/services/enclave_client.py.
use confidential_ml_feature.Prelude.{ℕ, zero, suc, [], Bytes, Result, ok, err}
use confidential_ml_feature.Python.Json.{Fields}
use confidential_ml_feature.Wire.{
  JsonCodec, Error, Stream, collect, unpack, parse_payload, or_closed, empty_frame,
}

module _ (json : JsonCodec) where
  unfoldable pub finish : Result Error Bytes × Stream → Result Error Fields × Stream
  finish (ok payload, s) = (parse_payload json payload, s)
  finish (err e, s) = (err e, s)

  -- `_decode_frame` after the header.
  unfoldable pub read_payload : Result Error ℕ → Stream → Result Error Fields × Stream
  read_payload (err e) s = (err e, s)
  read_payload (ok zero) s = (err empty_frame, s)
  read_payload (ok (suc n)) s = let (r, rest) = collect s (suc n) [] in finish (or_closed r, rest)

  unfoldable pub with_header : Result Error Bytes × Stream → Result Error Fields × Stream
  with_header (ok header, s) = read_payload (unpack header) s
  with_header (err e, s) = (err e, s)

  -- `_decode_frame(_recv_exact(connection, 4), connection)`
  unfoldable pub decode_frame : Stream → Result Error Fields × Stream
  decode_frame s = let (r, rest) = collect s 4 [] in with_header (or_closed r, rest)
