-- ===== src/Server/Lifecycle.antt =====
-- enclave/server.py: the accept loop of `VsockRPCServer.serve_forever`, and `stop`, which the signal
-- handler calls in the middle of it. A connection is a number; the pool's threads are elsewhere.
pub mod Stopped
use mathlib.Core.Path.{subst, sym}
use confidential_ml_feature.Prelude.{
  ◌≢◌, ℕ, ◌≡◌, refl, ap, ◌∙◌, Bool, true, false, Option, none, some, List, [], ◌∷◌, ◌++◌,
  if◌then◌else◌, arith, append-nil, append_assoc, if-elim, ◌⊎◌, inl, inr,
}

-- The stop event, whether the server's socket is open and the pool takes work, and the connections
-- that were submitted to the pool.
pub record State : Type 0 where
  pub stop_event : Bool
  pub socket_open : Bool
  pub pool_open : Bool
  pub submitted : List ℕ

-- `stop`
unfoldable pub stop : State → State
stop st =
    if st.stop_event
    then st
    else record st { stop_event = true; socket_open = false; pool_open = false }

-- When a signal is handled, for a connection that `accept` has returned: not before the next
-- `accept`, before the call of `submit`, or inside that call, where the connection may have got into
-- the pool's queue already.
pub data Moment : Type 0 where
  undisturbed before_submit : Moment
  inside_submit : Bool → Moment

-- What happens in `accept`, and after it up to the next one: a connection; an OSError; or a signal
-- that is handled while `accept` waits.
pub data Event : Type 0 where
  accepted : ℕ → Moment → Event
  accept_failed : Event
  signal : Event

-- How the loop ends, if it does: a pool that was shut down takes no work, and a `stop` inside
-- `submit` waits for ever for the lock that `submit` holds.
pub data Ending : Type 0 where
  waiting returned : Ending
  os_error pool_shut_down deadlocked : Ending

-- self._executor.submit
unfoldable pub submit : ℕ → State → Option State
submit c st = if st.pool_open then some (record st { submitted = st.submitted ++ c ∷ [] }) else none

-- What `stop` has done before it calls `shutdown`.
abbrev pub interrupted : State → State
interrupted st = record st { stop_event = true; socket_open = false }

-- The loop, from a call of `accept` on.
unfoldable pub accept_loop : List Event → State → Ending × State
unfolding submit
accept_loop [] st = (waiting, st)
accept_loop (signal ∷ es) st = accept_loop es (stop st)
accept_loop (accept_failed ∷ es) st = if st.stop_event then (returned, st) else (os_error, st)
accept_loop (accepted c undisturbed ∷ es) st = elim (submit c st) [
  | none ↦ (pool_shut_down, st)
  | some st' ↦ let rest = accept_loop es st' in if st'.stop_event then (returned, st') else rest
]
accept_loop (accepted c before_submit ∷ es) st = elim (submit c (stop st)) [
  | none ↦ (pool_shut_down, stop st)
  | some st' ↦ let rest = accept_loop es st' in if st'.stop_event then (returned, st') else rest
]
accept_loop (accepted c (inside_submit queued) ∷ es) st = elim (submit c st) [
  | none ↦ (pool_shut_down, st)
  | some st' ↦
      if st.stop_event
      then (returned, st')
      else (deadlocked, interrupted (if queued then st' else st))
]

-- The `finally` clause, where the loop comes to it.
unfoldable pub finally_stop : Ending × State → Ending × State
finally_stop (waiting, st) = (waiting, st)
finally_stop (deadlocked, st) = (deadlocked, st)
finally_stop (ending, st) = (ending, stop st)

-- The loop of `serve_forever` and its `finally`, from the listening socket on.
unfoldable pub serve_forever : List Event → State → Ending × State
unfolding finally_stop
serve_forever events st =
    if st.stop_event then finally_stop (returned, st) else finally_stop (accept_loop events st)

-- The connections that reach the pool: those accepted before the first signal or error, less the one
-- before whose submission the signal is handled; the one inside whose submission it is handled counts
-- if it was in the queue by then.
abbrev pub taken : List Event → List ℕ
taken (accepted c undisturbed ∷ es) = c ∷ taken es
taken (accepted c (inside_submit true) ∷ es) = c ∷ []
taken _ = []

-- Of signals and errors, the first is a signal inside a call of `submit`.
abbrev pub blocks : List Event → Bool
blocks (accepted c undisturbed ∷ es) = blocks es
blocks (accepted c (inside_submit queued) ∷ es) = true
blocks _ = false

-- Started, and not stopped.
pub record IsRunning (st : State) : Type 0 where
  pub going : st.stop_event ≡ false
  pub listening : st.socket_open ≡ true
  pub working : st.pool_open ≡ true

pub record IsStopped (st : State) : Type 0 where
  pub stopped : st.stop_event ≡ true
  pub closed : st.socket_open ≡ false
  pub shut : st.pool_open ≡ false
