-- ===== src/EnclaveClient/Threads/Ownership.antt =====
-- feature_store/services/enclave_client.py: who owns a connection, in every interleaving of threads.
use confidential_ml_feature.Prelude.{
  ℕ, suc, ◌+◌, ◌≤◌, ◌<◌, ◌≡◌, ◌≢◌, ap, List, [], ◌∷◌, Option, none, some, arith, ltb, leb,
  if◌then◌else◌, if-elim, Bytes, length, Result, ok, err,
}
use confidential_ml_feature.Wire
use confidential_ml_feature.Wire.{JsonCodec}
use confidential_ml_feature.EnclaveClient.{
  Fields, Sockets, Settings, State, connected, safe_close, release,
}
use confidential_ml_feature.EnclaveClient.Pool.{count}
use confidential_ml_feature.EnclaveClient.Threads.{
  Work, connecting, sending, receiving, settling, done, take, use_connection,
}

-- The connection that a thread uses.
abbrev pub held : Work → Option ℕ
held (sending request c) = some c
held (receiving c) = some c
held (settling c r) = some c
held _ = none

-- Each connection that was opened is in the pool or closed, at most once in all, and no other is.
pub record IsOwned {World : Type 0} (settings : Settings) (st : State World) : Type 0 where
  pub once : (c : ℕ) → count c st.pool + count c st.closed ≤ (if ltb c st.next then 1 else 0)
  pub bounded : length st.pool ≤ settings.max_pool_size

-- A connection that was opened, and is neither in the pool nor closed.
pub record IsOut {World : Type 0} (c : ℕ) (st : State World) : Type 0 where
  pub opened : c < st.next
  pub out : count c st.pool + count c st.closed ≡ 0

abbrev pub Owns : {World : Type 0} → State World → Option ℕ → Type 0
Owns st none = Unit {0}
Owns st (some c) = IsOut c st

abbrev pub AreApart : Option ℕ → Option ℕ → Type 0
AreApart (some c) (some d) = c ≢ d
AreApart _ _ = Unit {0}

pub AreApart-sym : (a b : Option ℕ) → AreApart a b → AreApart b a
AreApart-sym none none h = tt
AreApart-sym none (some d) h = tt
AreApart-sym (some c) none h = tt
AreApart-sym (some c) (some d) h = λ e. ground (arith, e, h)

module _ {World : Type 0} (json : JsonCodec) (sockets : Sockets World) (settings : Settings) where
  -- After a move the thread owns what it holds, and any other thread owns what it held.
  pub record IsKeeping (st : State World) (before : Option ℕ) (w : Work) (st' : State World)
      : Type 0 where
    pub state : IsOwned settings st'
    pub mine : Owns st' (held w)
    pub others : (o : Option ℕ) → Owns st o → AreApart before o → Owns st' o × AreApart (held w) o

  pub same :
      (st : State World) (w : Work)
      → IsOwned settings st
      → Owns st (held w)
      → IsKeeping st (held w) w st
  same st w v h = record { state = v; mine = h; others = λ o g a. (g, a) }

  pub in_world :
      (world : World) (st : State World) (before : Option ℕ) (w : Work)
      → IsKeeping st before w st
      → IsKeeping st before w (record st { world = world })
  in_world world st before w k = record {
    state = record { once = k.state.once; bounded = k.state.bounded };
    mine = moved (held w) k.mine;
    others = λ o g a. (moved o g, (k.others o g a).1);
  }
    where
      moved : (o : Option ℕ) → Owns st o → Owns (record st { world = world }) o
      moved none g = tt
      moved (some d) g = record { opened = g.opened; out = g.out }

  pub take-IsKeeping :
      (request : Bytes) (pool : List ℕ) (st : State World)
      → st.pool ≡ pool
      → IsOwned settings st
      → IsKeeping st none
          (take json sockets settings request pool st).0
          (take json sockets settings request pool st).1
  unfolding take
  take-IsKeeping request [] st e v = same st (connecting request) v tt
  take-IsKeeping request (c ∷ cs) st e v = record {
    state = record {
      once = λ d. omega (arith, v.once d, ap (count d) e);
      bounded = omega (arith, v.bounded, ap length e);
    };
    mine = record {
      opened = ground (arith, v.once c, ap (count c) e);
      out = ground (arith, v.once c, ap (count c) e);
    };
    others = apart;
  }
    where
      apart :
          (o : Option ℕ)
          → Owns st o
          → AreApart none o
          → Owns (record st { pool = cs }) o × AreApart (some c) o
      apart none g a = (tt, tt)
      apart (some d) g a = (
        record { opened = g.opened; out = ground (arith, g.out, ap (count d) e) },
        ground (arith, g.out, ap (count d) e),
      )

  pub connected-IsKeeping :
      (request : Bytes) (r : Result Wire.Error (Unit {0}) × World) (st : State World)
      → IsOwned settings st
      → IsKeeping st none
          (use_connection json sockets settings request (connected json sockets settings r st)).0
          (use_connection json sockets settings request (connected json sockets settings r st)).1
  unfolding connected use_connection
  connected-IsKeeping request (err e, world) st v =
      in_world world st none (done (err e)) (same st (done (err e)) v tt)
  connected-IsKeeping request (ok u, world) st v = record {
    state = record { once = λ d. ground (arith, v.once d); bounded = v.bounded };
    mine = record { opened = omega arith; out = ground (arith, v.once st.next) };
    others = apart;
  }
    where
      apart :
          (o : Option ℕ)
          → Owns st o
          → AreApart none o
          → Owns (record st { next = suc st.next; world = world }) o × AreApart (some st.next) o
      apart none g a = (tt, tt)
      apart (some d) g a = (
        record { opened = omega (arith, g.opened); out = g.out },
        λ e. omega (arith, e, g.opened),
      )

  pub safe_close-IsKeeping :
      (c : ℕ) (r : Result Wire.Error Fields) (st : State World)
      → IsOut c st
      → IsOwned settings st
      → IsKeeping st (some c) (done r) (safe_close json sockets settings c st)
  unfolding safe_close
  safe_close-IsKeeping c r st h v = record {
    state = record { once = λ d. ground (arith, v.once d, h.opened, h.out); bounded = v.bounded };
    mine = tt;
    others = apart;
  }
    where
      apart :
          (o : Option ℕ)
          → Owns st o
          → AreApart (some c) o
          → Owns (safe_close json sockets settings c st) o × AreApart none o
      apart none g a = (tt, tt)
      apart (some d) g a = (record { opened = g.opened; out = ground (arith, g.out, a) }, tt)

  pub release-IsKeeping :
      (c : ℕ) (r : Result Wire.Error Fields) (st : State World)
      → IsOut c st
      → IsOwned settings st
      → IsKeeping st (some c) (done r) (release json sockets settings c st)
  unfolding release
  release-IsKeeping c r st h v =
      if-elim (IsKeeping st (some c) (done r)) (leb settings.max_pool_size (length st.pool)) _ _
        (λ _. safe_close-IsKeeping c r st h v)
        (λ room. record {
          state = record {
            once = λ d. ground (arith, v.once d, h.opened, h.out);
            bounded = ground (arith, room);
          };
          mine = tt;
          others = apart;
        })
    where
      apart :
          (o : Option ℕ)
          → Owns st o
          → AreApart (some c) o
          → Owns (record st { pool = c ∷ st.pool }) o × AreApart none o
      apart none g a = (tt, tt)
      apart (some d) g a = (record { opened = g.opened; out = ground (arith, g.out, a) }, tt)
