-- ===== src/EnclaveClient/Threads/Exclusion.antt =====
-- feature_store/services/enclave_client.py: no connection is used by two threads, in any interleaving.
use confidential_ml_feature.Prelude.{
  ◌⊎◌, ℕ, ◌≡◌, refl, some, arith, ◌==◌, Bool-cases, inl, inr, Result, ok, err,
}
use confidential_ml_feature.Threads.{System, Reach, Holds, IsKept, reach-Holds}
use confidential_ml_feature.Wire
use confidential_ml_feature.Wire.{JsonCodec}
use confidential_ml_feature.EnclaveClient.{
  Fields, Sockets, Settings, State, receive_response, settle, safe_close, discard, Class, class_of,
  times_out, breaks, is_malformed, escapes,
}
use confidential_ml_feature.EnclaveClient.Threads.{
  Work, idle, wanting, connecting, sending, receiving, settling, done, sent, proceed, Move, start,
  finish, go_on,
}
use confidential_ml_feature.EnclaveClient.Threads.Ownership.{
  held, IsOwned, IsOut, Owns, AreApart, AreApart-sym, IsKeeping, same, in_world, take-IsKeeping,
  connected-IsKeeping, safe_close-IsKeeping, release-IsKeeping,
}

module _ {World : Type 0} (json : JsonCodec) (sockets : Sockets World) (settings : Settings) where
  discard-IsKeeping :
      (e : Wire.Error) (c : ℕ) (r : Result Wire.Error Fields) (st : State World)
      → IsOut c st
      → IsOwned settings st
      → IsKeeping json sockets settings st (some c) (done r) (discard json sockets settings e c st)
  unfolding discard
  discard-IsKeeping e c r st h v = go (class_of e)
    where
      go :
          (k : Class)
          → IsKeeping json sockets settings st (some c) (done r) (elim k as (λ _. State World) [
            | escapes ↦ st
            | _ ↦ safe_close json sockets settings c st
          ])
      go times_out = safe_close-IsKeeping json sockets settings c r st h v
      go breaks = safe_close-IsKeeping json sockets settings c r st h v
      go is_malformed = safe_close-IsKeeping json sockets settings c r st h v
      go escapes = record { state = v; mine = tt; others = λ o g a. (g, tt) }

  settle-IsKeeping :
      (c : ℕ) (r : Result Wire.Error Fields) (st : State World)
      → IsOut c st
      → IsOwned settings st
      → IsKeeping json sockets settings st
          (some c)
          (done (settle json sockets settings c (r, st)).0)
          (settle json sockets settings c (r, st)).1
  unfolding settle
  settle-IsKeeping c (ok response) st h v =
      release-IsKeeping json sockets settings c (ok response) st h v
  settle-IsKeeping c (err e) st h v = discard-IsKeeping e c (err e) st h v

  sent-IsKeeping :
      (c : ℕ) (r : Result Wire.Failure (Unit {0}) × World) (st : State World)
      → IsOut c st
      → IsOwned settings st
      → IsKeeping json sockets settings st
          (some c)
          (sent json sockets settings c r st).0
          (sent json sockets settings c r st).1
  unfolding sent
  sent-IsKeeping c (ok u, world) st h v =
      in_world json sockets settings world st (some c) (receiving c)
        (same json sockets settings st (receiving c) v h)
  sent-IsKeeping c (err e, world) st h v =
      let w = settling c (err (Wire.socket e)) in
      in_world json sockets settings world st (some c) w (same json sockets settings st w v h)

  proceed-IsKeeping :
      (w : Work) (st : State World)
      → IsOwned settings st
      → Owns st (held w)
      → IsKeeping json sockets settings st
          (held w)
          (proceed json sockets settings w st).0
          (proceed json sockets settings w st).1
  unfolding proceed receive_response
  proceed-IsKeeping idle st v h = same json sockets settings st idle v tt
  proceed-IsKeeping (wanting request) st v h =
      take-IsKeeping json sockets settings request st.pool st refl v
  proceed-IsKeeping (connecting request) st v h =
      connected-IsKeeping json sockets settings request (sockets.connect st.next st.world) st v
  proceed-IsKeeping (sending request c) st v h =
      sent-IsKeeping c (sockets.sendall c request st.world) st h v
  proceed-IsKeeping (receiving c) st v h =
      let r = receive_response json sockets settings c st in
      in_world json sockets settings r.1.world st (some c) (settling c r.0)
        (same json sockets settings st (settling c r.0) v h)
  proceed-IsKeeping (settling c r) st v h = settle-IsKeeping c r st h v
  proceed-IsKeeping (done r) st v h = same json sockets settings st (done r) v tt

  move-IsKeeping :
      (w : Work) (st : State World) (w' : Work) (st' : State World)
      → Move json sockets settings w st w' st'
      → IsOwned settings st
      → Owns st (held w)
      → IsKeeping json sockets settings st (held w) w' st'
  move-IsKeeping w st w' st' (start request) v h =
      same json sockets settings st (wanting request) v tt
  move-IsKeeping w st w' st' (finish r) v h = same json sockets settings st idle v tt
  move-IsKeeping w st w' st' (go_on _) v h = proceed-IsKeeping w st v h

  abbrev Local : State World → Work → Type 0
  Local st w = Owns st (held w)

  abbrev Apart : Work → Work → Type 0
  Apart v w = AreApart (held v) (held w)

  move-IsKept : IsKept (Move json sockets settings) (IsOwned settings) Local Apart
  move-IsKept = record {
    apart_sym = λ {v} {w} h. AreApart-sym (held v) (held w) h;
    own = λ {w} {w'} {m} {m'} move v h.
        let k = move-IsKeeping w m w' m' move v h in (k.state, k.mine);
    other = λ {v} {w} {w'} {m} {m'} move s h g a.
        (move-IsKeeping w m w' m' move s h).others (held v) g a;
  }

  reach-kept :
      (st : State World) (s : System (State World) Work)
      → IsOwned settings st
      → Reach (Move json sockets settings) (record { shared = st; work = λ _. idle }) s
      → Holds (Move json sockets settings) (IsOwned settings) Local Apart s
  reach-kept st s v r =
      reach-Holds (Move json sockets settings) (IsOwned settings) Local Apart move-IsKept
        (record { state = v; each = λ _. tt; two = λ _ _ _. tt }) r

  -- Whatever threads do with one client whose pool holds each opened connection at most once, in any
  -- order: in every state that they reach, this is so and the pool is within its size; a connection
  -- that a thread holds was opened and is neither in the pool nor closed; and no two threads hold the
  -- same connection.
  pub reach-IsOwned :
      (st : State World) (s : System (State World) Work) (i j : ℕ)
      → IsOwned settings st
      → Reach (Move json sockets settings) (record { shared = st; work = λ _. idle }) s
      → IsOwned settings s.shared
        × Owns s.shared (held (s.work i))
        × ((i ≡ j) ⊎ AreApart (held (s.work i)) (held (s.work j)))
  reach-IsOwned st s i j v r =
      let kept = reach-kept st s v r in
      (
        kept.state,
        kept.each i,
        elim (Bool-cases (i == j)) [
          | inl same_thread ↦ inl (ground (arith, same_thread))
          | inr other ↦ inr (kept.two i j (ground (arith, other)))
        ],
      )
