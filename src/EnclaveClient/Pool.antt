-- ===== src/EnclaveClient/Pool.antt =====
-- What becomes of the connections that `EnclaveClient` opens.
use confidential_ml_feature.Prelude.{
  ℕ, zero, suc, ◌+◌, ◌≤◌, ◌≡◌, refl, ap, ◌≢◌, List, [], ◌∷◌, arith, ltb, leb, ◌==◌, if◌then◌else◌,
  if-elim, Text, Bytes, length, Result, ok, err,
}
use confidential_ml_feature.Wire
use confidential_ml_feature.Wire.{JsonCodec}
use confidential_ml_feature.EnclaveClient.Caught.{IsCaught, decode_frame-IsCaught}
use confidential_ml_feature.EnclaveClient.{
  communication, timeout, handle, conclude, Fields, receive_response, settle, after_send, exchange,
  attempt, sleep_before_retry, retry, send_frame, send_request, Error, Sockets, Settings, State,
  Class, times_out, breaks, is_malformed, escapes, class_of, safe_close, connected, take_or_connect,
  acquire, release, discard,
}

abbrev pub count : ℕ → List ℕ → ℕ
count c [] = 0
count c (d ∷ ds) = (if d == c then 1 else 0) + count c ds

-- Every connection opened so far is in the pool once or was closed once, never both, and no other
-- number is in either; and the pool is within its size.
pub record IsAccounted {World : Type 0} (settings : Settings) (st : State World) : Type 0 where
  pub owned : (c : ℕ) → count c st.pool + count c st.closed ≡ (if ltb c st.next then 1 else 0)
  pub bounded : length st.pool ≤ settings.max_pool_size

-- The same, while connection `c` is in use.
pub record IsInUse {World : Type 0} (settings : Settings) (c : ℕ) (st : State World) : Type 0 where
  pub owned :
      (d : ℕ)
      → (if c == d then 1 else 0) + (count d st.pool + count d st.closed)
        ≡ (if ltb d st.next then 1 else 0)
  pub bounded : length st.pool ≤ settings.max_pool_size

module _ {World : Type 0} (json : JsonCodec) (sockets : Sockets World) (settings : Settings) where
  safe_close-IsAccounted :
      (c : ℕ) (st : State World)
      → IsInUse settings c st
      → IsAccounted settings (safe_close json sockets settings c st)
  unfolding safe_close
  safe_close-IsAccounted c st v = record {
    owned = λ d. omega (arith, v.owned d);
    bounded = v.bounded;
  }

  release-IsAccounted :
      (c : ℕ) (st : State World)
      → IsInUse settings c st
      → IsAccounted settings (release json sockets settings c st)
  unfolding release
  release-IsAccounted c st v =
      if-elim (IsAccounted settings) (leb settings.max_pool_size (length st.pool)) _ _
        (λ _. safe_close-IsAccounted c st v)
        (λ room. record { owned = λ d. omega (arith, v.owned d); bounded = ground (arith, room) })

  -- What `acquire` leaves: a connection in use, or none more than before.
  abbrev Acquired : Result Wire.Error ℕ × State World → Type 0
  Acquired (ok c, st) = IsInUse settings c st
  Acquired (err e, st) = IsAccounted settings st

  opened :
      (st : State World) (world : World)
      → IsAccounted settings st
      → IsInUse settings st.next (record st { next = suc st.next; world = world })
  opened st world v = record { owned = λ d. ground (arith, v.owned d); bounded = v.bounded }

  connected-Acquired :
      (r : Result Wire.Error (Unit {0}) × World) (st : State World)
      → IsAccounted settings st
      → Acquired (connected json sockets settings r st)
  unfolding connected
  connected-Acquired (ok u, world) st v = opened st world v
  connected-Acquired (err e, world) st v = record { owned = v.owned; bounded = v.bounded }

  take-Acquired :
      (pool : List ℕ) (st : State World)
      → st.pool ≡ pool
      → IsAccounted settings st
      → Acquired (take_or_connect json sockets settings pool st)
  unfolding take_or_connect
  take-Acquired [] st e v = connected-Acquired (sockets.connect st.next st.world) st v
  take-Acquired (c ∷ cs) st e v = record {
    owned = λ d. omega (arith, v.owned d, ap (count d) e);
    bounded = omega (arith, v.bounded, ap length e);
  }

  acquire-Acquired :
      (st : State World) → IsAccounted settings st → Acquired (acquire json sockets settings st)
  unfolding acquire
  acquire-Acquired st v = take-Acquired st.pool st refl v

  -- An exception that no clause catches.
  abbrev Escapes : Wire.Error → Type 0
  Escapes e = class_of e ≡ escapes

  discard-IsAccounted :
      (e : Wire.Error) (c : ℕ) (st : State World)
      → class_of e ≢ escapes
      → IsInUse settings c st
      → IsAccounted settings (discard json sockets settings e c st)
  unfolding discard
  discard-IsAccounted e c st ne v = go (class_of e) ne
    where
      go :
          (k : Class)
          → k ≢ escapes
          → IsAccounted settings (elim k as (λ _. State World) [
            | escapes ↦ st
            | _ ↦ safe_close json sockets settings c st
          ])
      go times_out h = safe_close-IsAccounted c st v
      go breaks h = safe_close-IsAccounted c st v
      go is_malformed h = safe_close-IsAccounted c st v
      go escapes h = absurd (h refl)

  settle-IsAccounted :
      (c : ℕ) (r : Result Wire.Error Fields × State World)
      → IsCaught r.0
      → IsInUse settings c r.1
      → IsAccounted settings (settle json sockets settings c r).1
  unfolding settle
  settle-IsAccounted c (ok response, st) caught v = release-IsAccounted c st v
  settle-IsAccounted c (err e, st) caught v = discard-IsAccounted e c st caught v

  receive-IsInUse :
      (c : ℕ) (st : State World)
      → IsInUse settings c st
      → IsInUse settings c (receive_response json sockets settings c st).1
  unfolding receive_response
  receive-IsInUse c st v = record { owned = v.owned; bounded = v.bounded }

  receive-IsCaught :
      (c : ℕ) (st : State World) → IsCaught (receive_response json sockets settings c st).0
  unfolding receive_response
  receive-IsCaught c st = decode_frame-IsCaught json (sockets.receive c st.world)

  in_world :
      (c : ℕ) (world : World) (st : State World)
      → IsInUse settings c st
      → IsInUse settings c (record st { world = world })
  in_world c world st v = record { owned = v.owned; bounded = v.bounded }

  after_send-IsAccounted :
      (c : ℕ) (r : Result Wire.Failure (Unit {0}) × World) (st : State World)
      → IsInUse settings c st
      → IsAccounted settings (after_send json sockets settings c r st).1
  unfolding after_send class_of
  after_send-IsAccounted c (ok u, world) st v =
      settle-IsAccounted c _ (receive-IsCaught c (record st { world = world }))
        (receive-IsInUse c _ (in_world c world st v))
  after_send-IsAccounted c (err Wire.timed_out, world) st v =
      discard-IsAccounted (Wire.socket Wire.timed_out) c _ (λ e. cc) (in_world c world st v)
  after_send-IsAccounted c (err Wire.os_error, world) st v =
      discard-IsAccounted (Wire.socket Wire.os_error) c _ (λ e. cc) (in_world c world st v)

  exchange-IsAccounted :
      (request : Bytes) (r : Result Wire.Error ℕ × State World)
      → Acquired r
      → IsAccounted settings (exchange json sockets settings request r).1
  unfolding exchange
  exchange-IsAccounted request (ok c, st) v =
      after_send-IsAccounted c (sockets.sendall c request st.world) st v
  exchange-IsAccounted request (err e, st) v = v

  attempt-IsAccounted :
      (request : Bytes) (st : State World)
      → IsAccounted settings st
      → IsAccounted settings (attempt json sockets settings request st).1
  unfolding attempt
  attempt-IsAccounted request st v =
      exchange-IsAccounted request (acquire json sockets settings st) (acquire-Acquired st v)

  sleep-IsAccounted :
      (number : ℕ) (st : State World)
      → IsAccounted settings st
      → IsAccounted settings (sleep_before_retry json sockets settings number st)
  unfolding sleep_before_retry
  sleep-IsAccounted number st v = record { owned = v.owned; bounded = v.bounded }

  pub conclude_cases {ℓ} :
      (P : State World → Type ℓ) (r : Result Wire.Error Fields × State World) (left : ℕ)
      (later : Result Error Fields × State World)
      → P r.1
      → (left ≢ 0 → P later.1)
      → P (conclude json sockets settings r left later).1
  unfolding conclude handle
  conclude_cases P (ok response, st) left later now then_on = now
  conclude_cases P (err e, st) left later now then_on = go (class_of e)
    where
      go : (k : Class) → P (handle json sockets settings k e left st later).1
      go times_out =
          if-elim (λ (r : Result Error Fields × State World). P r.1) (left == 0) (err timeout, st)
            later (λ _. now) (λ more. then_on (ground (arith, more)))
      go breaks =
          if-elim (λ (r : Result Error Fields × State World). P r.1) (left == 0)
            (err communication, st) later (λ _. now) (λ more. then_on (ground (arith, more)))
      go is_malformed = now
      go escapes = now

  retry-IsAccounted :
      (left number : ℕ) (request : Bytes) (st : State World)
      → IsAccounted settings st
      → IsAccounted settings (retry json sockets settings left number request st).1
  unfolding retry
  retry-IsAccounted zero number request st v = v
  retry-IsAccounted (suc left) number request st v =
      let tried = attempt-IsAccounted request st v in
      let slept = sleep-IsAccounted number (attempt json sockets settings request st).1 tried in
      conclude_cases (IsAccounted settings) (attempt json sockets settings request st) left _ tried
        (λ _. retry-IsAccounted left (suc number) request _ slept)

  send_frame-IsAccounted :
      (r : Result Wire.Error Bytes) (st : State World)
      → IsAccounted settings st
      → IsAccounted settings (send_frame json sockets settings r st).1
  unfolding send_frame
  send_frame-IsAccounted (ok request) st v = retry-IsAccounted settings.max_retries 1 request st v
  send_frame-IsAccounted (err e) st v = v

  -- If each connection that was ever opened is either in the pool, once, or was closed, once, and
  -- the pool is within its size, then the same holds after a request, whatever the sockets do and
  -- however the request ends: none leaks, and none that was closed is used again.
  pub send_request-IsAccounted :
      (action : Text) (payload : Fields) (st : State World)
      → IsAccounted settings st
      → IsAccounted settings (send_request json sockets settings action payload st).1
  unfolding send_request
  send_request-IsAccounted action payload st v = send_frame-IsAccounted _ st v
