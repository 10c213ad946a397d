-- ===== src/EnclaveClient/Threads/Knowing.antt =====
-- feature_store/services/enclave_client.py: what a move of a thread does with each connection.
use confidential_ml_feature.Prelude.{
  ℕ, ◌+◌, ◌≤◌, ◌<◌, ◌≡◌, ◌≢◌, ◌⊎◌, inl, inr, refl, ap, List, [], ◌∷◌, some, arith, ◌==◌, leb,
  if-elim, Bool-cases, Bytes, length, Result, ok, err,
}
use confidential_ml_feature.Wire
use confidential_ml_feature.Wire.{JsonCodec}
use confidential_ml_feature.EnclaveClient.{
  Fields, Sockets, Settings, State, connected, receive_response, settle, safe_close, release,
  discard, Class, class_of, times_out, breaks, is_malformed, escapes,
}
use confidential_ml_feature.EnclaveClient.Caught.{IsCaught, decode_frame-IsCaught}
use confidential_ml_feature.EnclaveClient.Pool.{count}
use confidential_ml_feature.EnclaveClient.Threads.{
  Work, idle, wanting, connecting, sending, receiving, settling, done, take, use_connection, sent,
  proceed, Move, start, finish, go_on,
}
use confidential_ml_feature.EnclaveClient.Threads.Ownership.{held}

-- What a thread gives a connection back with is an answer, or an error that a clause catches.
abbrev pub SettlesCaught : Work → Type 0
SettlesCaught (settling c r) = IsCaught r
SettlesCaught _ = Unit {0}

-- In the pool, closed, or held by the thread.
abbrev pub Known : {World : Type 0} → ℕ → State World → Work → Type 0
Known c st w = (1 ≤ count c st.pool + count c st.closed) ⊎ (held w ≡ some c)

module _ {World : Type 0} (json : JsonCodec) (sockets : Sockets World) (settings : Settings) where
  -- A move leaves a connection known that was, and makes known the one that it opens.
  pub record IsKnowing (st : State World) (w : Work) (st' : State World) (w' : Work) : Type 0 where
    pub kept : (c : ℕ) → Known c st w → Known c st' w'
    pub opened : (c : ℕ) → c < st'.next → (c < st.next) ⊎ (held w' ≡ some c)
    pub caught : SettlesCaught w'

  stays : (st : State World) (w : Work) → SettlesCaught w → IsKnowing st w st w
  stays st w h = record { kept = λ c k. k; opened = λ c l. inl l; caught = h }

  take-IsKnowing :
      (request : Bytes) (pool : List ℕ) (st : State World)
      → st.pool ≡ pool
      → IsKnowing st
          (wanting request)
          (take json sockets settings request pool st).1
          (take json sockets settings request pool st).0
  unfolding take
  take-IsKnowing request [] st e = record {
    kept = λ c k. elim k [ inl h ↦ inl h | inr h ↦ absurd (ground (arith, h)) ];
    opened = λ c l. inl l;
    caught = tt;
  }
  take-IsKnowing request (d ∷ ds) st e = record { kept = moved; opened = λ c l. inl l; caught = tt }
    where
      moved :
          (c : ℕ)
          → Known c st (wanting request)
          → Known c (record st { pool = ds }) (sending request d)
      moved c (inl h) = elim (Bool-cases (d == c)) [
        | inl same ↦ inr (ground (arith, same))
        | inr other ↦ inl (ground (arith, h, other, ap (count c) e))
      ]
      moved c (inr h) = absurd (ground (arith, h))

  connected-IsKnowing :
      (request : Bytes) (r : Result Wire.Error (Unit {0}) × World) (st : State World)
      → IsKnowing st
          (connecting request)
          (use_connection json sockets settings request (connected json sockets settings r st)).1
          (use_connection json sockets settings request (connected json sockets settings r st)).0
  unfolding connected use_connection
  connected-IsKnowing request (err e, world) st = record {
    kept = λ c k. elim k [ inl h ↦ inl h | inr h ↦ absurd (ground (arith, h)) ];
    opened = λ c l. inl l;
    caught = tt;
  }
  connected-IsKnowing request (ok u, world) st = record {
    kept = λ c k. elim k [ inl h ↦ inl h | inr h ↦ absurd (ground (arith, h)) ];
    opened = λ c l. elim (Bool-cases (st.next == c)) [
      | inl same ↦ inr (ground (arith, same))
      | inr other ↦ inl (ground (arith, l, other))
    ];
    caught = tt;
  }

  sent-IsKnowing :
      (request : Bytes) (c : ℕ) (r : Result Wire.Failure (Unit {0}) × World) (st : State World)
      → IsKnowing st
          (sending request c)
          (sent json sockets settings c r st).1
          (sent json sockets settings c r st).0
  unfolding sent class_of
  sent-IsKnowing request c (ok u, world) st = record {
    kept = λ d k. k;
    opened = λ d l. inl l;
    caught = tt;
  }
  sent-IsKnowing request c (err Wire.timed_out, world) st = record {
    kept = λ d k. k;
    opened = λ d l. inl l;
    caught = λ e. ground (arith, e);
  }
  sent-IsKnowing request c (err Wire.os_error, world) st = record {
    kept = λ d k. k;
    opened = λ d l. inl l;
    caught = λ e. ground (arith, e);
  }

  safe_close-IsKnowing :
      (c : ℕ) (r q : Result Wire.Error Fields) (st : State World)
      → IsKnowing st (settling c r) (safe_close json sockets settings c st) (done q)
  unfolding safe_close
  safe_close-IsKnowing c r q st = record { kept = known; opened = λ d l. inl l; caught = tt }
    where
      known :
          (d : ℕ)
          → Known d st (settling c r)
          → Known d (safe_close json sockets settings c st) (done q)
      known d (inl h) = inl (ground (arith, h))
      known d (inr h) = inl (ground (arith, h))

  release-IsKnowing :
      (c : ℕ) (r q : Result Wire.Error Fields) (st : State World)
      → IsKnowing st (settling c r) (release json sockets settings c st) (done q)
  unfolding release
  release-IsKnowing c r q st =
      if-elim (λ t. IsKnowing st (settling c r) t (done q))
        (leb settings.max_pool_size (length st.pool)) _ _ (λ _. safe_close-IsKnowing c r q st)
        (λ _. record { kept = known; opened = λ d l. inl l; caught = tt })
    where
      known :
          (d : ℕ) → Known d st (settling c r) → Known d (record st { pool = c ∷ st.pool }) (done q)
      known d (inl h) = inl (ground (arith, h))
      known d (inr h) = inl (ground (arith, h))

  settle-IsKnowing :
      (c : ℕ) (r : Result Wire.Error Fields) (st : State World)
      → IsCaught r
      → IsKnowing st
          (settling c r)
          (settle json sockets settings c (r, st)).1
          (done (settle json sockets settings c (r, st)).0)
  unfolding settle discard
  settle-IsKnowing c (ok response) st h = release-IsKnowing c (ok response) (ok response) st
  settle-IsKnowing c (err e) st h = go (class_of e) h
    where
      go :
          (k : Class)
          → k ≢ escapes
          → IsKnowing st
              (settling c (err e))
              (elim k as (λ _. State World) [
                | escapes ↦ st
                | _ ↦ safe_close json sockets settings c st
              ])
              (done (err e))
      go times_out ne = safe_close-IsKnowing c (err e) (err e) st
      go breaks ne = safe_close-IsKnowing c (err e) (err e) st
      go is_malformed ne = safe_close-IsKnowing c (err e) (err e) st
      go escapes ne = absurd (ne refl)

  pub move-IsKnowing :
      (w : Work) (st : State World) (w' : Work) (st' : State World)
      → Move json sockets settings w st w' st'
      → SettlesCaught w
      → IsKnowing st w st' w'
  unfolding proceed receive_response
  move-IsKnowing w st w' st' (start request) h = record {
    kept = λ c k. k;
    opened = λ c l. inl l;
    caught = tt;
  }
  move-IsKnowing w st w' st' (finish r) h = record {
    kept = λ c k. k;
    opened = λ c l. inl l;
    caught = tt;
  }
  move-IsKnowing w st w' st' (go_on _) h = going w h
    where
      going :
          (v : Work)
          → SettlesCaught v
          → IsKnowing st v
              (proceed json sockets settings v st).1
              (proceed json sockets settings v st).0
      going idle h = stays st idle tt
      going (wanting request) h = take-IsKnowing request st.pool st refl
      going (connecting request) h =
          connected-IsKnowing request (sockets.connect st.next st.world) st
      going (sending request c) h = sent-IsKnowing request c (sockets.sendall c request st.world) st
      going (receiving c) h = record {
        kept = λ d k. k;
        opened = λ d l. inl l;
        caught = decode_frame-IsCaught json (sockets.receive c st.world);
      }
      going (settling c r) h = settle-IsKnowing c r st h
      going (done r) h = stays st (done r) tt
