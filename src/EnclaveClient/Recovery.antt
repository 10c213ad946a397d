-- ===== src/EnclaveClient/Recovery.antt =====
-- `send_request` when attempts fail: when it gets through, and when stale connections use it up.
use mathlib.Core.Path.{subst}
use confidential_ml_feature.Prelude.{
  ℕ, zero, suc, ◌≤◌, ◌<◌, ◌≡◌, refl, sym, ap, ◌∙◌, ◌≢◌, ◌⊎◌, List, [], ◌∷◌, arith, ◌==◌, if-elim,
  Text, Bytes, length, All, Result, ok, err,
}
use confidential_ml_feature.Python.Codes.{codes}
use confidential_ml_feature.Python.Json.{Fields, set_field, str}
use confidential_ml_feature.Wire
use confidential_ml_feature.Wire.{JsonCodec, encode_frame}
use confidential_ml_feature.EnclaveClient.{
  Error, Sockets, Settings, State, times_out, breaks, class_of, safe_close, take_or_connect,
  acquire, discard, after_send, exchange, attempt, sleep_before_retry, handle, conclude, retry,
  send_frame, send_request, communication,
}

module _ {World : Type 0} (json : JsonCodec) (sockets : Sockets World) (settings : Settings) where
  abbrev IsTransient : Wire.Error → Type 0
  IsTransient e = (class_of e ≡ times_out) ⊎ (class_of e ≡ breaks)

  -- So many attempts in a row fail by a timeout or an OSError, from the one state to the other.
  abbrev pub Fails : ℕ → ℕ → Bytes → State World → State World → Type 0
  Fails zero number request st st' = st ≡ st'
  Fails (suc k) number request st st' =
      (e : Wire.Error) × ((attempt json sockets settings request st).0 ≡ err e)
      × IsTransient e
      × Fails k (suc number) request
          (sleep_before_retry json sockets settings number
            (attempt json sockets settings request st).1)
          st'

  -- A failed attempt that is not the last.
  again :
      (e : Wire.Error) (left : ℕ) (r : Result Wire.Error Fields × State World)
      (later : Result Error Fields × State World)
      → r.0 ≡ err e
      → IsTransient e
      → left ≢ 0
      → conclude json sockets settings r left later ≡ later
  unfolding conclude handle
  again e left (ok response, st) later failed t more = absurd (ground arith)
  again e left (err f, st) later failed t more = ground arith

  at_once :
      (left : ℕ) (r : Result Wire.Error Fields × State World)
      (later : Result Error Fields × State World) (response : Fields)
      → r.0 ≡ ok response
      → conclude json sockets settings r left later ≡ (ok response, r.1)
  unfolding conclude
  at_once left (ok f, st) later response got = ground arith
  at_once left (err e, st) later response got = absurd (ground arith)

  retry-Fails :
      (k left number : ℕ) (request : Bytes) (st st' : State World) (response : Fields)
      → k < left
      → Fails k number request st st'
      → (attempt json sockets settings request st').0 ≡ ok response
      → retry json sockets settings left number request st
        ≡ (ok response, (attempt json sockets settings request st').1)
  unfolding retry
  retry-Fails k zero number request st st' response h f got = absurd (omega (arith, h))
  retry-Fails zero (suc left) number request st st' response h f got =
      at_once left (attempt json sockets settings request st) _ response
        (subst (λ s. (attempt json sockets settings request s).0 ≡ ok response) (sym f) got)
      ∙ ap (λ s. (ok response, (attempt json sockets settings request s).1)) f
  retry-Fails (suc k) (suc left) number request st st' response h (e, failed, t, f) got =
      again e left _ _ failed t (omega arith)
      ∙ retry-Fails k left (suc number) request _ st' response (omega arith) f got

  -- For a request that can be framed: if fewer than `max_retries` attempts in a row fail by a
  -- timeout or an OSError, and the next one gets a response, then the request returns that response
  -- and leaves the state after that attempt.
  pub send_request_recovers :
      (k : ℕ) (action : Text) (payload : Fields) (request : Bytes) (st st' : State World)
      (response : Fields)
      → encode_frame json (set_field (codes "action") (str action) payload) ≡ ok request
      → k < settings.max_retries
      → Fails k 1 request st st'
      → (attempt json sockets settings request st').0 ≡ ok response
      → send_request json sockets settings action payload st
        ≡ (ok response, (attempt json sockets settings request st').1)
  unfolding send_request send_frame
  send_request_recovers k action payload request st st' response framed h f got =
      rw framed (retry-Fails k settings.max_retries 1 request st st' response h f got)

  -- A pooled connection whose peer is gone.
  abbrev pub IsStale : Bytes → ℕ → Type 0
  IsStale request c = (world : World) → (sockets.sendall c request world).0 ≡ err Wire.os_error

  -- An attempt that broke on a connection from the pool, which left the others there.
  abbrev Breaks : List ℕ → ℕ → Result Wire.Error Fields × State World → Type 0
  Breaks pool next r =
      (r.0 ≡ err (Wire.socket Wire.os_error)) × (r.1.pool ≡ pool) × (r.1.next ≡ next)

  after_send-Breaks :
      (c : ℕ) (r : Result Wire.Failure (Unit {0}) × World) (st : State World)
      → r.0 ≡ err Wire.os_error
      → Breaks st.pool st.next (after_send json sockets settings c r st)
  unfolding after_send discard class_of safe_close
  after_send-Breaks c (ok u, world) st h = absurd (ground (arith, h))
  after_send-Breaks c (err Wire.timed_out, world) st h = absurd (ground (arith, h))
  after_send-Breaks c (err Wire.os_error, world) st h = (refl, refl, refl)

  stale_attempt :
      (c : ℕ) (cs : List ℕ) (request : Bytes) (st : State World)
      → st.pool ≡ c ∷ cs
      → IsStale request c
      → Breaks cs st.next (attempt json sockets settings request st)
  unfolding attempt acquire take_or_connect exchange
  stale_attempt c cs request st e stale =
      subst
        (λ pool.
          Breaks cs st.next (
            exchange json sockets settings request (take_or_connect json sockets settings pool st)))
        (sym e)
        (after_send-Breaks c (sockets.sendall c request st.world) (record st { pool = cs })
          (stale st.world))

  broken_off :
      (left : ℕ) (r : Result Wire.Error Fields × State World)
      (later : Result Error Fields × State World) (next : ℕ)
      → r.0 ≡ err (Wire.socket Wire.os_error)
      → r.1.next ≡ next
      → (left ≢ 0 → (later.0 ≡ err communication) × (later.1.next ≡ next))
      → ((conclude json sockets settings r left later).0 ≡ err communication)
        × ((conclude json sockets settings r left later).1.next ≡ next)
  unfolding conclude handle class_of
  broken_off left (ok f, st) later next failed same more = absurd (ground (arith, failed))
  broken_off left (err (Wire.socket Wire.os_error), st) later next failed same more =
      if-elim
        (λ (r : Result Error Fields × State World). (r.0 ≡ err communication) × (r.1.next ≡ next))
        (left == 0) (err communication, st) later (λ _. (refl, same))
        (λ h. more (ground (arith, h)))
  broken_off left (err _, st) later next failed same more = absurd (ground (arith, failed))

  retry_stale :
      (left number : ℕ) (pool : List ℕ) (request : Bytes) (st : State World)
      → st.pool ≡ pool
      → All (IsStale request) pool
      → left ≤ length pool
      → ((retry json sockets settings left number request st).0 ≡ err communication)
        × ((retry json sockets settings left number request st).1.next ≡ st.next)
  unfolding retry sleep_before_retry
  retry_stale zero number pool request st e stale enough = (refl, refl)
  retry_stale (suc left) number [] request st e stale enough = absurd (omega (arith, enough))
  retry_stale (suc left) number (c ∷ cs) request st e stale enough =
      let (failed, others, same) = stale_attempt c cs request st e stale.0 in
      broken_off left (attempt json sockets settings request st) _ st.next failed same (λ more.
        let (r, n) =
          retry_stale left (suc number) cs request
            (sleep_before_retry json sockets settings number
              (attempt json sockets settings request st).1)
            others stale.1 (omega (arith, enough)) in
        (r, n ∙ same))

  -- For a request that can be framed: if sending it on any pooled connection raises an OSError, and
  -- there are at least `max_retries` of these, then the request raises EnclaveCommunicationError,
  -- and no connection is opened, though a new one might get through.
  pub send_request_stale :
      (action : Text) (payload : Fields) (request : Bytes) (st : State World)
      → encode_frame json (set_field (codes "action") (str action) payload) ≡ ok request
      → All (IsStale request) st.pool
      → settings.max_retries ≤ length st.pool
      → ((send_request json sockets settings action payload st).0 ≡ err communication)
        × ((send_request json sockets settings action payload st).1.next ≡ st.next)
  unfolding send_request send_frame
  send_request_stale action payload request st framed stale enough =
      rw framed (retry_stale settings.max_retries 1 st.pool request st refl stale enough)
