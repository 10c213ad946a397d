-- ===== src/EnclaveClient/Threads/Alone.antt =====
-- feature_store/services/enclave_client.py: an attempt that is not interleaved with others.
use confidential_ml_feature.Prelude.{ℕ, zero, suc, ◌≡◌, refl, List, [], ◌∷◌, Bytes, Result, ok, err}
use confidential_ml_feature.Wire
use confidential_ml_feature.Wire.{JsonCodec}
use confidential_ml_feature.EnclaveClient.{
  Fields, Sockets, Settings, State, take_or_connect, acquire, connected, after_send, exchange,
  attempt, settle, receive_response, discard,
}
use confidential_ml_feature.EnclaveClient.Threads.{
  Work, wanting, done, take, use_connection, sent, proceed,
}

module _ {World : Type 0} (json : JsonCodec) (sockets : Sockets World) (settings : Settings) where
  abbrev pub proceeds : ℕ → Work × State World → Work × State World
  proceeds zero r = r
  proceeds (suc n) r = proceeds n (proceed json sockets settings r.0 r.1)

  abbrev pub finished : Result Wire.Error Fields × State World → Work × State World
  finished (r, st) = (done r, st)

  stays :
      (n : ℕ) (r : Result Wire.Error Fields × State World) → proceeds n (finished r) ≡ finished r
  unfolding proceed
  stays zero r = refl
  stays (suc n) r = stays n r

  after_sent :
      (n c : ℕ) (r : Result Wire.Failure (Unit {0}) × World) (st : State World)
      → proceeds (suc (suc n)) (sent json sockets settings c r st)
        ≡ finished (after_send json sockets settings c r st)
  unfolding sent after_send proceed settle discard
  after_sent n c (ok u, world) st = stays n (
      settle json sockets settings c
        (receive_response json sockets settings c (record st { world = world })))
  after_sent n c (err e, world) st = stays n (
    err (Wire.socket e),
    discard json sockets settings (Wire.socket e) c (record st { world = world }),
  )

  after_connected :
      (request : Bytes) (r : Result Wire.Error ℕ × State World)
      → proceeds 3 (use_connection json sockets settings request r)
        ≡ finished (exchange json sockets settings request r)
  unfolding use_connection exchange proceed
  after_connected request (ok c, st) = after_sent 0 c (sockets.sendall c request st.world) st
  after_connected request (err e, st) = refl

  after_take :
      (request : Bytes) (pool : List ℕ) (st : State World)
      → proceeds 4 (take json sockets settings request pool st)
        ≡ finished
            (exchange json sockets settings request (take_or_connect json sockets settings pool st))
  unfolding take take_or_connect proceed exchange
  after_take request [] st =
      after_connected request
        (connected json sockets settings (sockets.connect st.next st.world) st)
  after_take request (c ∷ cs) st =
      after_sent 1 c (sockets.sendall c request st.world) (record st { pool = cs })

  -- Five moves in a row are one attempt: they end with its response or its error, and leave the pool,
  -- the closed connections and the world as it leaves them.
  pub proceeds-attempt :
      (request : Bytes) (st : State World)
      → proceeds 5 (wanting request, st) ≡ finished (attempt json sockets settings request st)
  unfolding proceed attempt acquire
  proceeds-attempt request st = after_take request st.pool st
