-- ===== src/EnclaveClient/Threads/Accounting.antt =====
-- feature_store/services/enclave_client.py: no connection is lost, in any interleaving of threads.
use mathlib.Core.Path.{subst}
use confidential_ml_feature.Prelude.{
  ℕ, ◌+◌, ◌≤◌, ◌<◌, ◌≡◌, ◌⊎◌, inl, inr, some, arith, ◌==◌, if-elim, Bool-cases,
}
use confidential_ml_feature.Threads.{System, Step, Reach, pick, assign, IsKept, reach-Holds}
use confidential_ml_feature.Wire.{JsonCodec}
use confidential_ml_feature.EnclaveClient.{Sockets, Settings, State}
use confidential_ml_feature.EnclaveClient.Pool.{count}
use confidential_ml_feature.EnclaveClient.Threads.{Work, idle, Move}
use confidential_ml_feature.EnclaveClient.Threads.Ownership.{held}
use confidential_ml_feature.EnclaveClient.Threads.Knowing.{
  SettlesCaught, Known, IsKnowing, move-IsKnowing,
}

module _ {World : Type 0} (json : JsonCodec) (sockets : Sockets World) (settings : Settings) where
  abbrev Any : Work → Work → Type 0
  Any v w = Unit {0}

  abbrev AnyState : State World → Type 0
  AnyState st = Unit {0}

  caught-IsKept : IsKept (Move json sockets settings) AnyState (λ _. SettlesCaught) Any
  caught-IsKept = record {
    apart_sym = λ _. tt;
    own = λ {w} {w'} {m} {m'} move _ h.
        (tt, (move-IsKnowing json sockets settings w m w' m' move h).caught);
    other = λ _ _ _ h _. (h, tt);
  }

  -- In the pool, closed, or held by some thread.
  abbrev pub KnownToSome : ℕ → System (State World) Work → Type 0
  KnownToSome c s =
      (1 ≤ count c s.shared.pool + count c s.shared.closed) ⊎ ((i : ℕ) × (held (s.work i) ≡ some c))

  Step-KnownToSome :
      (c : ℕ) (s t : System (State World) Work)
      → Step (Move json sockets settings) s t
      → ((i : ℕ) → SettlesCaught (s.work i))
      → (c < s.shared.next → KnownToSome c s)
      → c < t.shared.next
      → KnownToSome c t
  Step-KnownToSome c s t (pick k {w} {m} move) caught before l = go (knows.opened c l)
    where
      knows : IsKnowing json sockets settings s.shared (s.work k) m w
      knows = move-IsKnowing json sockets settings (s.work k) s.shared w m move (caught k)

      after : System (State World) Work
      after = record { shared = m; work = assign k w s.work }

      here : Known c m w → KnownToSome c after
      here (inl h) = inl h
      here (inr h) = inr (
        k,
        if-elim (λ v. held v ≡ some c) (k == k) w (s.work k) (λ _. h)
            (λ e. absurd (ground (arith, e))),
      )

      earlier : KnownToSome c s → KnownToSome c after
      earlier (inl h) = here (knows.kept c (inl h))
      earlier (inr (j, h)) = elim (Bool-cases (k == j)) [
        | inl same ↦
            let at : j ≡ k = ground (arith, same) in
            here (knows.kept c (inr (subst (λ i. held (s.work i) ≡ some c) at h)))
        | inr other ↦ inr (
          j,
          if-elim (λ v. held v ≡ some c) (k == j) w (s.work j)
              (λ e. absurd (ground (arith, e, other))) (λ _. h),
        )
      ]

      go : (c < s.shared.next) ⊎ (held w ≡ some c) → KnownToSome c after
      go (inl below) = earlier (before below)
      go (inr h) = here (inr h)

  -- Whatever threads do with one client, in any order, from a state in which each connection that was
  -- opened is in the pool or closed: in every state that they reach, each connection that was opened
  -- until then is in the pool, closed, or held by some thread.
  pub reach-KnownToSome :
      (c : ℕ) (st : State World) (s : System (State World) Work)
      → ((d : ℕ) → d < st.next → 1 ≤ count d st.pool + count d st.closed)
      → Reach (Move json sockets settings) (record { shared = st; work = λ _. idle }) s
      → c < s.shared.next
      → KnownToSome c s
  reach-KnownToSome c st s known Reach.start l = inl (known c l)
  reach-KnownToSome c st s known (Reach.later {s = u} r step) l =
      let caught =
        reach-Holds (Move json sockets settings) AnyState (λ _. SettlesCaught) Any caught-IsKept
          (record { state = tt; each = λ _. tt; two = λ _ _ _. tt }) r in
      Step-KnownToSome c u s step caught.each (reach-KnownToSome c st u known r) l
