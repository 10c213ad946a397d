-- ===== src/EnclaveClient/Retry.antt =====
-- How many connections `send_request` opens, and how long it sleeps.
use confidential_ml_feature.Prelude.{
  ℕ, zero, suc, ◌+◌, ◌-◌, ◌*◌, ◌≤◌, List, [], ◌∷◌, arith, Text, Bytes, Result, ok, err,
}
use confidential_ml_feature.Python.Json.{Fields}
use confidential_ml_feature.Wire
use confidential_ml_feature.Wire.{JsonCodec, encode_frame}
use confidential_ml_feature.EnclaveClient.{
  Sockets, Settings, State, Class, times_out, breaks, is_malformed, escapes, class_of, safe_close,
  connected, take_or_connect, acquire, release, discard, receive_response, settle, after_send,
  exchange, attempt, sleep_before_retry, backoff, retry, send_frame, send_request,
}
use confidential_ml_feature.EnclaveClient.Pool.{conclude_cases}

backoff-le : (number : ℕ) → backoff number ≤ 10
unfolding backoff
backoff-le number = ground arith

-- At most so many connections were opened, and so many tenths of a second slept.
pub record Spends {World : Type 0} (opened slept : ℕ) (before after : State World) : Type 0 where
  pub connections : after.next ≤ before.next + opened
  pub naps : after.slept ≤ before.slept + slept

module _ {World : Type 0} (json : JsonCodec) (sockets : Sockets World) (settings : Settings) where
  discard-Spends :
      (e : Wire.Error) (c : ℕ) (st : State World)
      → Spends 0 0 st (discard json sockets settings e c st)
  unfolding discard safe_close
  discard-Spends e c st = go (class_of e)
    where
      go :
          (k : Class)
          → Spends 0 0 st (elim k as (λ _. State World) [
            | escapes ↦ st
            | _ ↦ safe_close json sockets settings c st
          ])
      go escapes = omega arith
      go times_out = omega arith
      go breaks = omega arith
      go is_malformed = omega arith

  settle-Spends :
      (c : ℕ) (r : Result Wire.Error Fields × State World)
      → Spends 0 0 r.1 (settle json sockets settings c r).1
  unfolding settle release safe_close
  settle-Spends c (ok response, st) = ground arith
  settle-Spends c (err e, st) = discard-Spends e c st

  after_send-Spends :
      (c : ℕ) (r : Result Wire.Failure (Unit {0}) × World) (st : State World)
      → Spends 0 0 st (after_send json sockets settings c r st).1
  unfolding after_send receive_response
  after_send-Spends c (ok u, world) st = omega (
    arith,
    settle-Spends c (receive_response json sockets settings c (record st { world = world })),
  )
  after_send-Spends c (err e, world) st =
      omega (arith, discard-Spends (Wire.socket e) c (record st { world = world }))

  acquire-Spends : (st : State World) → Spends 1 0 st (acquire json sockets settings st).1
  unfolding acquire connected take_or_connect
  acquire-Spends st = go st.pool
    where
      opens :
          (r : Result Wire.Error (Unit {0}) × World)
          → Spends 1 0 st (connected json sockets settings r st).1
      opens (ok u, world) = omega arith
      opens (err e, world) = omega arith

      go : (pool : List ℕ) → Spends 1 0 st (take_or_connect json sockets settings pool st).1
      go (c ∷ cs) = omega arith
      go [] = opens (sockets.connect st.next st.world)

  exchange-Spends :
      (request : Bytes) (r : Result Wire.Error ℕ × State World)
      → Spends 0 0 r.1 (exchange json sockets settings request r).1
  unfolding exchange
  exchange-Spends request (ok c, st) = after_send-Spends c (sockets.sendall c request st.world) st
  exchange-Spends request (err e, st) = omega arith

  attempt-Spends :
      (request : Bytes) (st : State World)
      → Spends 1 0 st (attempt json sockets settings request st).1
  unfolding attempt
  attempt-Spends request st =
      omega (arith, acquire-Spends st, exchange-Spends request (acquire json sockets settings st))

  retry-Spends :
      (left number : ℕ) (request : Bytes) (st : State World)
      → Spends left (10 * (left - 1)) st (retry json sockets settings left number request st).1
  unfolding retry sleep_before_retry
  retry-Spends zero number request st = omega arith
  retry-Spends (suc left) number request st =
      let tried = attempt json sockets settings request st in
      let spent = attempt-Spends request st in
      let later =
        retry-Spends left (suc number) request
          (sleep_before_retry json sockets settings number tried.1) in
      conclude_cases json sockets settings (Spends (suc left) (10 * (suc left - 1)) st) tried left _
        (omega (arith, spent)) (λ more. omega (arith, spent, later, more, backoff-le number))

  send_frame-Spends :
      (r : Result Wire.Error Bytes) (st : State World)
      → Spends settings.max_retries
          (10 * (settings.max_retries - 1))
          st
          (send_frame json sockets settings r st).1
  unfolding send_frame
  send_frame-Spends (ok request) st = retry-Spends settings.max_retries 1 request st
  send_frame-Spends (err e) st = omega arith

  -- Whatever the sockets do: a request opens at most `max_retries` connections, and sleeps at most a
  -- second for each attempt after the first.
  pub send_request-Spends :
      (action : Text) (payload : Fields) (st : State World)
      → Spends settings.max_retries
          (10 * (settings.max_retries - 1))
          st
          (send_request json sockets settings action payload st).1
  unfolding send_request
  send_request-Spends action payload st = send_frame-Spends _ st
