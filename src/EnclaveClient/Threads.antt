-- ===== src/EnclaveClient/Threads.antt =====
-- feature_store/services/enclave_client.py: `EnclaveClient` under several threads. The pool's lock is
-- held to take a connection and to give it back; between the two a thread uses it unlocked.
pub mod Ownership
pub mod Exclusion
pub mod Knowing
pub mod Accounting
pub mod Alone
use confidential_ml_feature.Prelude.{ℕ, List, [], ◌∷◌, Option, none, some, Bytes, Result, ok, err}
use confidential_ml_feature.Wire
use confidential_ml_feature.Wire.{JsonCodec}
use confidential_ml_feature.EnclaveClient.{
  Fields, Sockets, Settings, State, connected, receive_response, settle,
}

-- Where a thread stands in one attempt: before it takes a connection, with none in the pool, with the
-- connection it sends on, receives on or gives back, or done.
pub data Work : Type 0 where
  idle : Work
  wanting : Bytes → Work
  connecting : Bytes → Work
  sending : Bytes → ℕ → Work
  receiving : ℕ → Work
  settling : ℕ → Result Wire.Error Fields → Work
  done : Result Wire.Error Fields → Work

module _ {World : Type 0} (json : JsonCodec) (sockets : Sockets World) (settings : Settings) where
  -- The locked section of `_acquire_connection`.
  unfoldable pub take : Bytes → List ℕ → State World → Work × State World
  take request (c ∷ cs) st = (sending request c, record st { pool = cs })
  take request [] st = (connecting request, st)

  unfoldable pub use_connection : Bytes → Result Wire.Error ℕ × State World → Work × State World
  use_connection request (ok c, st) = (sending request c, st)
  use_connection request (err e, st) = (done (err e), st)

  unfoldable pub sent :
      ℕ → Result Wire.Failure (Unit {0}) × World → State World → Work × State World
  sent c (ok u, world) st = (receiving c, record st { world = world })
  sent c (err e, world) st = (settling c (err (Wire.socket e)), record st { world = world })

  -- What a thread does next: one locked section, or one call of the socket.
  unfoldable pub proceed : Work → State World → Work × State World
  unfolding take use_connection sent
  proceed idle st = (idle, st)
  proceed (wanting request) st = take request st.pool st
  proceed (connecting request) st =
      use_connection request (connected json sockets settings (sockets.connect st.next st.world) st)
  proceed (sending request c) st = sent c (sockets.sendall c request st.world) st
  proceed (receiving c) st =
      let (r, st') = receive_response json sockets settings c st in (settling c r, st')
  proceed (settling c r) st =
      let (r', st') = settle json sockets settings c (r, st) in (done r', st')
  proceed (done r) st = (done r, st)

  -- A free thread starts an attempt, one that is done becomes free, or a thread goes on.
  pub data Move : Work → State World → Work → State World → Type 0 where
    start : (request : Bytes) {st : State World} → Move idle st (wanting request) st
    finish : (r : Result Wire.Error Fields) {st : State World} → Move (done r) st idle st
    go_on : (w : Work) {st : State World} → Move w st (proceed w st).0 (proceed w st).1
