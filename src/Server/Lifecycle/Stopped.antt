-- ===== src/Server/Lifecycle/Stopped.antt =====
-- What the accept loop of enclave/server.py leaves: the connections submitted, and how it ends.
use mathlib.Core.Path.{subst, sym}
use confidential_ml_feature.Prelude.{
  ◌≢◌, ℕ, ◌≡◌, refl, ap, ◌∙◌, Bool, true, false, none, List, [], ◌∷◌, ◌++◌, arith, append-nil,
  append_assoc, if-elim, ◌⊎◌, inl, inr,
}
use confidential_ml_feature.Server.Lifecycle.{
  State, stop, undisturbed, before_submit, inside_submit, Event, accepted, accept_failed, signal,
  Ending, waiting, returned, os_error, pool_shut_down, deadlocked, submit, accept_loop,
  finally_stop, serve_forever, taken, blocks, IsRunning, IsStopped,
}

stop-IsStopped : (st : State) → IsRunning st → IsStopped (stop st)
unfolding stop
stop-IsStopped st h =
    if-elim IsStopped st.stop_event _ _ (λ e. absurd (ground (arith, e, h.going)))
      (λ _. record { stopped = refl; closed = refl; shut = refl })

stop_again : (st : State) → IsStopped st → stop st ≡ st
unfolding stop
stop_again st h =
    if-elim (λ t. t ≡ st) st.stop_event _ _ (λ _. refl) (λ e. absurd (ground (arith, e, h.stopped)))

still_stops : (st : State) → IsStopped st ⊎ IsRunning st → IsStopped (stop st)
still_stops st (inl h) = subst IsStopped (sym (stop_again st h)) h
still_stops st (inr h) = stop-IsStopped st h

stop-submitted : (st : State) → (stop st).submitted ≡ st.submitted
unfolding stop
stop-submitted st =
    if-elim (λ (t : State). t.submitted ≡ st.submitted) st.stop_event _ _ (λ _. refl) (λ _. refl)

submit-none : (c : ℕ) (st : State) → IsStopped st → submit c st ≡ none
unfolding submit
submit-none c st h =
    if-elim (λ o. o ≡ none) st.pool_open _ _ (λ e. absurd (ground (arith, e, h.shut))) (λ _. refl)

-- Once stopped, the loop changes nothing, whatever happens in `accept`.
accept_loop-stopped :
    (events : List Event) (st : State) → IsStopped st → (accept_loop events st).1 ≡ st
unfolding accept_loop
accept_loop-stopped [] st h = refl
accept_loop-stopped (signal ∷ es) st h =
    subst (λ t. (accept_loop es t).1 ≡ st) (sym (stop_again st h)) (accept_loop-stopped es st h)
accept_loop-stopped (accept_failed ∷ es) st h =
    if-elim (λ (r : Ending × State). r.1 ≡ st) st.stop_event _ _ (λ _. refl) (λ _. refl)
accept_loop-stopped (accepted c undisturbed ∷ es) st h = rw (submit-none c st h, accept_loop) refl
accept_loop-stopped (accepted c (inside_submit queued) ∷ es) st h =
    rw (submit-none c st h, accept_loop) refl
accept_loop-stopped (accepted c before_submit ∷ es) st h =
    let shut : submit c (stop st) ≡ none =
      submit-none c (stop st) (subst IsStopped (sym (stop_again st h)) h) in
    rw (shut, accept_loop) (stop_again st h)

-- A state that the loop leaves: stopped or running, or hanging after a signal inside `submit`.
abbrev Settled : List Event → Ending × State → Type 0
Settled events r =
    IsStopped r.1
    ⊎ (IsRunning r.1 × (r.0 ≢ deadlocked))
    ⊎ ((r.0 ≡ deadlocked) × (blocks events ≡ true))

-- What the loop leaves: the connections submitted, and its state.
pub record Leaves (before : List ℕ) (events : List Event) (r : Ending × State) : Type 0 where
  pub submitted : r.1.submitted ≡ before ++ taken events
  pub state : Settled events r

-- A `submit` with a signal inside it, from a running server.
blocked-Leaves :
    (c : ℕ) (queued : Bool) (es : List Event) (st : State)
    → IsRunning st
    → Leaves st.submitted
        (accepted c (inside_submit queued) ∷ es)
        (accept_loop (accepted c (inside_submit queued) ∷ es) st)
unfolding accept_loop
blocked-Leaves c true es st h =
    rw (h.working, submit)
      (if-elim (Leaves st.submitted (accepted c (inside_submit true) ∷ es)) st.stop_event _ _
        (λ e. absurd (ground (arith, e, h.going)))
        (λ _. record { submitted = refl; state = inr (inr (refl, refl)) }))
blocked-Leaves c false es st h =
    rw (h.working, submit)
      (if-elim (Leaves st.submitted (accepted c (inside_submit false) ∷ es)) st.stop_event _ _
        (λ e. absurd (ground (arith, e, h.going)))
        (λ _. record { submitted = sym (append-nil st.submitted); state = inr (inr (refl, refl)) }))

accept_loop-Leaves :
    (events : List Event) (st : State)
    → IsRunning st
    → Leaves st.submitted events (accept_loop events st)
unfolding accept_loop
accept_loop-Leaves [] st h = record {
  submitted = sym (append-nil st.submitted);
  state = inr (inl (h, λ e. ground (arith, e)));
}
accept_loop-Leaves (signal ∷ es) st h =
    let ends = accept_loop-stopped es (stop st) (stop-IsStopped st h) in
    record {
      submitted =
          ap (λ (t : State). t.submitted) ends ∙ stop-submitted st ∙ sym (append-nil st.submitted);
      state = inl (subst IsStopped (sym ends) (stop-IsStopped st h));
    }
accept_loop-Leaves (accept_failed ∷ es) st h =
    if-elim (Leaves st.submitted (accept_failed ∷ es)) st.stop_event _ _
      (λ _. record {
        submitted = sym (append-nil st.submitted);
        state = inr (inl (h, λ e. ground (arith, e)));
      })
      (λ _. record {
        submitted = sym (append-nil st.submitted);
        state = inr (inl (h, λ e. ground (arith, e)));
      })
accept_loop-Leaves (accepted c undisturbed ∷ es) st h =
    rw (h.working, submit)
      (if-elim (Leaves st.submitted (accepted c undisturbed ∷ es)) st.stop_event _ _
        (λ e. absurd (ground (arith, e, h.going)))
        (λ _.
          let rest =
            accept_loop-Leaves es
              (record st { pool_open = true; submitted = st.submitted ++ c ∷ [] })
              (record { going = h.going; listening = h.listening; working = refl }) in
          record {
            submitted = rest.submitted ∙ append_assoc st.submitted (c ∷ []) (taken es);
            state = rest.state;
          }))
accept_loop-Leaves (accepted c before_submit ∷ es) st h =
    let shut : submit c (stop st) ≡ none = submit-none c (stop st) (stop-IsStopped st h) in
    rw (shut, accept_loop)
      (record {
        submitted = stop-submitted st ∙ sym (append-nil st.submitted);
        state = inl (stop-IsStopped st h);
      })
accept_loop-Leaves (accepted c (inside_submit queued) ∷ es) st h = blocked-Leaves c queued es st h

-- The loop waits, it hangs, or it has stopped the server.
abbrev Ended : List Event → Ending × State → Type 0
Ended events r = (r.0 ≡ waiting) ⊎ IsStopped r.1 ⊎ ((r.0 ≡ deadlocked) × (blocks events ≡ true))

IsStopped-stop :
    (events : List Event) (ending : Ending) (st : State)
    → ending ≢ deadlocked
    → Settled events (ending, st)
    → IsStopped (stop st)
IsStopped-stop events ending st ne (inl h) = still_stops st (inl h)
IsStopped-stop events ending st ne (inr (inl h)) = still_stops st (inr h.0)
IsStopped-stop events ending st ne (inr (inr (e, b))) = absurd (ne e)

Settled-Ended :
    (events : List Event) (st : State)
    → Settled events (deadlocked, st)
    → Ended events (deadlocked, st)
Settled-Ended events st (inl h) = inr (inl h)
Settled-Ended events st (inr (inl h)) = absurd (h.1 refl)
Settled-Ended events st (inr (inr h)) = inr (inr h)

finally_stop-Ended :
    (events : List Event) (r : Ending × State) → Settled events r → Ended events (finally_stop r)
unfolding finally_stop
finally_stop-Ended events (waiting, st) h = inl refl
finally_stop-Ended events (deadlocked, st) h = Settled-Ended events st h
finally_stop-Ended events (returned, st) h =
    inr (inl (IsStopped-stop events returned st (λ e. ground (arith, e)) h))
finally_stop-Ended events (os_error, st) h =
    inr (inl (IsStopped-stop events os_error st (λ e. ground (arith, e)) h))
finally_stop-Ended events (pool_shut_down, st) h =
    inr (inl (IsStopped-stop events pool_shut_down st (λ e. ground (arith, e)) h))

finally_stop-submitted : (r : Ending × State) → (finally_stop r).1.submitted ≡ r.1.submitted
unfolding finally_stop
finally_stop-submitted (waiting, st) = refl
finally_stop-submitted (deadlocked, st) = refl
finally_stop-submitted (returned, st) = stop-submitted st
finally_stop-submitted (os_error, st) = stop-submitted st
finally_stop-submitted (pool_shut_down, st) = stop-submitted st

-- From a running server, whatever connections, errors and signals come: the connections submitted are
-- those that are accepted before the first signal or error, in their order, save that one which is
-- accepted is not submitted if the signal is handled before its submission, or inside it before it is
-- queued. And the loop still waits for a connection; or it has ended, by returning or by an exception,
-- with the stop event set, the socket closed and the pool shut down; or it hangs in `stop`, and then
-- the first of the signals and errors was a signal inside a call of `submit`.
pub serve_forever-IsStopped :
    (events : List Event) (st : State)
    → IsRunning st
    → ((serve_forever events st).1.submitted ≡ st.submitted ++ taken events)
      × (((serve_forever events st).0 ≡ waiting)
          ⊎ IsStopped (serve_forever events st).1
          ⊎ (((serve_forever events st).0 ≡ deadlocked) × (blocks events ≡ true)))
unfolding serve_forever
serve_forever-IsStopped events st h =
    if-elim Both st.stop_event _ _ (λ e. absurd (ground (arith, e, h.going)))
      (λ _.
        let left = accept_loop-Leaves events st h in
        (
          finally_stop-submitted (accept_loop events st) ∙ left.submitted,
          finally_stop-Ended events (accept_loop events st) left.state,
        ))
  where
    Both : Ending × State → Type 0
    Both r = (r.1.submitted ≡ st.submitted ++ taken events) × Ended events r
