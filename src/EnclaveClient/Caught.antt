-- ===== src/EnclaveClient/Caught.antt =====
-- Which exceptions of an exchange the clauses of `send_request` catch.
use mathlib.Core.Path.{subst}
use confidential_ml_feature.Prelude.{
  ℕ, zero, suc, ◌+◌, ◌-◌, ◌≤◌, ◌≡◌, refl, ◌≢◌, Option, none, some, [], ◌∷◌, ◌++◌, arith, ltb,
  if-elim, Bytes, length, take, drop, length-append, Result, ok, err,
}
use confidential_ml_feature.Python.Json.{Json, Fields, obj}
use confidential_ml_feature.Python.IntBytes.{from_bytes}
use confidential_ml_feature.Wire
use confidential_ml_feature.Wire.{
  JsonCodec, Stream, chunk, failed, Received, full, ended, broken, Failure, timed_out, os_error,
  collect, unpack, parse_payload, or_closed, as_dict, put_back,
}
use confidential_ml_feature.Wire.Client.{decode_frame, with_header, read_payload, finish}
use confidential_ml_feature.EnclaveClient.{class_of, escapes}

-- All bytes asked for.
abbrev FullOf : ℕ → Received → Type 0
FullOf n (full b) = length b ≡ n
FullOf n (ended b) = Unit
FullOf n (broken e) = Unit

length-take : (n : ℕ) (bs : Bytes) → n ≤ length bs → length (take n bs) ≡ n
length-take zero bs h = refl
length-take (suc n) [] h = absurd (omega (arith, h))
length-take (suc n) (b ∷ bs) h = omega (arith, length-take n bs (omega arith))

collect-FullOf :
    (s : Stream) (n : ℕ) (buffer : Bytes) → FullOf (length buffer + n) (collect s n buffer).0
unfolding collect
collect-FullOf [] zero buffer = omega arith
collect-FullOf (a ∷ s) zero buffer = omega arith
collect-FullOf [] (suc n) buffer = tt
collect-FullOf (failed e ∷ s) (suc n) buffer = tt
collect-FullOf (chunk b bs ∷ s) (suc n) buffer =
    if-elim (λ (r : Received × Stream). FullOf (length buffer + suc n) r.0) (ltb (length bs) n)
      (collect s (n - length bs) (buffer ++ b ∷ bs))
      (full (buffer ++ b ∷ take n bs), put_back (drop n bs) s)
      (λ part.
        subst (λ k. FullOf k (collect s (n - length bs) (buffer ++ b ∷ bs)).0)
          (ground (arith, length-append buffer (b ∷ bs)))
          (collect-FullOf s (n - length bs) (buffer ++ b ∷ bs)))
      (λ whole. ground (arith, length-append buffer (b ∷ take n bs), length-take n bs))

-- A value, or an exception that a clause catches.
abbrev pub IsCaught : Result Wire.Error Fields → Type 0
IsCaught (ok fields) = Unit
IsCaught (err e) = class_of e ≢ escapes

parse_payload-IsCaught :
    (json : JsonCodec) (payload : Bytes) → IsCaught (parse_payload json payload)
unfolding parse_payload class_of
parse_payload-IsCaught json payload = go (json.loads payload)
  where
    go :
        (o : Option Json)
        → IsCaught (elim o as (λ _. Result Wire.Error Fields) [
          | none ↦ err Wire.json_error
          | some v ↦ as_dict v
        ])
    go none = λ e. cc
    go (some (obj fields)) = tt
    go (some _) = λ e. cc

finish-IsCaught :
    (json : JsonCodec) (r : Received) (s : Stream) → IsCaught (finish json (or_closed r, s)).0
unfolding finish or_closed class_of
finish-IsCaught json (full b) s = parse_payload-IsCaught json b
finish-IsCaught json (ended b) s = λ e. cc
finish-IsCaught json (broken timed_out) s = λ e. cc
finish-IsCaught json (broken os_error) s = λ e. cc

read_payload-IsCaught :
    (json : JsonCodec) (n : ℕ) (s : Stream) → IsCaught (read_payload json (ok n) s).0
unfolding read_payload class_of
read_payload-IsCaught json zero s = λ e. cc
read_payload-IsCaught json (suc n) s =
    finish-IsCaught json (collect s (suc n) []).0 (collect s (suc n) []).1

unpack_of_four : (b : Bytes) → length b ≡ 4 → (n : ℕ) × (unpack b ≡ ok n)
unfolding unpack
unpack_of_four b four = (from_bytes b, rw four refl)

with_header-IsCaught :
    (json : JsonCodec) (r : Received) (s : Stream)
    → FullOf 4 r
    → IsCaught (with_header json (or_closed r, s)).0
unfolding with_header or_closed class_of
with_header-IsCaught json (full b) s four =
    let (n, e) = unpack_of_four b four in rw e (read_payload-IsCaught json n s)
with_header-IsCaught json (ended b) s four = λ e. cc
with_header-IsCaught json (broken timed_out) s four = λ e. cc
with_header-IsCaught json (broken os_error) s four = λ e. cc

-- Whatever a connection delivers, reading a response raises nothing that `send_request` lets pass.
pub decode_frame-IsCaught : (json : JsonCodec) (s : Stream) → IsCaught (decode_frame json s).0
unfolding decode_frame
decode_frame-IsCaught json s =
    with_header-IsCaught json (collect s 4 []).0 (collect s 4 []).1 (collect-FullOf s 4 [])
