-- ===== src/Tests/Client.antt =====
-- The host's client with stale connections in its pool.
use confidential_ml_feature.Prelude.{
  ◌⊎◌, ℕ, ◌<◌, inr, ◌≡◌, refl, none, some, [], ◌∷◌, arith, ok, err,
}
use confidential_ml_feature.Python.Codes.{codes}
use confidential_ml_feature.Python.Json.{Fields}
use confidential_ml_feature.Wire
use confidential_ml_feature.Wire.{
  JsonCodec, Stream, chunk, frame, encode_frame, parse_payload, connection_closed,
}
use confidential_ml_feature.Wire.RoundTrip.{decode_frame-encode_frame}
use confidential_ml_feature.EnclaveClient.Pool.{IsAccounted, send_request-IsAccounted}
use confidential_ml_feature.EnclaveClient.Retry.{Spends, send_request-Spends}
use confidential_ml_feature.EnclaveClient.Recovery.{
  Fails, send_request_recovers, send_request_stale,
}
use confidential_ml_feature.EnclaveClient.{
  communication, acquire, connected, take_or_connect, attempt, exchange, after_send, discard,
  safe_close, class_of, sleep_before_retry, backoff, receive_response, settle, send_request, State,
}
use confidential_ml_feature.Threads.{System, Reach, start, later, pick, assign}
use confidential_ml_feature.EnclaveClient.Threads
use confidential_ml_feature.EnclaveClient.Threads.{
  Work, Move, idle, wanting, go_on, proceed, take, use_connection,
}
use confidential_ml_feature.EnclaveClient.Threads.Ownership.{held, IsOwned, Owns, AreApart}
use confidential_ml_feature.EnclaveClient.Threads.Accounting.{KnownToSome, reach-KnownToSome}
use confidential_ml_feature.EnclaveClient.Threads.Exclusion.{reach-IsOwned}
use confidential_ml_feature.EnclaveClient.Responses.{predict_payload}
use confidential_ml_feature.Tests.Network.{
  python, json, settings, sockets, request_bytes, answer, answer_bytes, outbound, outbound-Carries,
  request-framed, answer-framed, answer-IsReadBack,
}

abbrev stale : State (Unit {0})
stale = record { pool = 0 ∷ []; next = 1; closed = []; slept = 0; world = tt }

abbrev call : Fields
call = predict_payload python (codes "m") (4 ∷ []) (1 ∷ []) none (some (codes "a"))

stale-IsAccounted : IsAccounted settings stale
stale-IsAccounted = record { owned = λ c. ground arith; bounded = omega arith }

send_request-IsAccounted_example :
    IsAccounted settings (send_request json sockets settings (codes "predict") call stale).1
send_request-IsAccounted_example =
    send_request-IsAccounted json sockets settings (codes "predict") call stale stale-IsAccounted

send_request-Spends_example :
    Spends 2 10 stale (send_request json sockets settings (codes "predict") call stale).1
send_request-Spends_example = send_request-Spends json sockets settings (codes "predict") call stale

-- The state after the first attempt, on the stale connection, and the wait.
abbrev waited : State (Unit {0})
waited = record { pool = []; next = 1; closed = 0 ∷ []; slept = 1; world = tt }

stale-Fails : Fails json sockets settings 1 1 request_bytes stale waited
unfolding attempt acquire take_or_connect exchange after_send discard safe_close class_of
    sleep_before_retry backoff
stale-Fails = (Wire.socket Wire.os_error, refl, inr refl, refl)

waited-answered : (attempt json sockets settings request_bytes waited).0 ≡ ok answer
unfolding attempt acquire take_or_connect connected exchange after_send receive_response settle
waited-answered =
    let (client, server) =
      decode_frame-encode_frame json answer answer_bytes [] outbound answer-IsReadBack answer-framed
        outbound-Carries in
    rw client.answered refl

send_request_recovers_example :
    send_request json sockets settings (codes "predict") call stale
    ≡ (ok answer, (attempt json sockets settings request_bytes waited).1)
send_request_recovers_example =
    send_request_recovers json sockets settings 1 (codes "predict") call request_bytes stale waited
      answer request-framed (omega arith) stale-Fails waited-answered

abbrev all_stale : State (Unit {0})
all_stale = record { pool = 0 ∷ 0 ∷ []; next = 2; closed = []; slept = 0; world = tt }

send_request_stale_example :
    ((send_request json sockets settings (codes "predict") call all_stale).0 ≡ err communication)
    × ((send_request json sockets settings (codes "predict") call all_stale).1.next ≡ 2)
send_request_stale_example =
    send_request_stale json sockets settings (codes "predict") call request_bytes all_stale
      request-framed (λ w. refl, (λ w. refl, tt)) (omega arith)

-- Two threads want a connection; one takes the one in the pool, the other finds none.
abbrev moved : ℕ → System (State (Unit {0})) Work → System (State (Unit {0})) Work
moved i s = record {
  shared = (proceed json sockets settings (s.work i) s.shared).1;
  work = assign i (proceed json sockets settings (s.work i) s.shared).0 s.work;
}

abbrev wanted : System (State (Unit {0})) Work
wanted = record {
  shared = stale;
  work = assign 1 (wanting request_bytes) (assign 0 (wanting request_bytes) (λ _. idle));
}

interleaved :
    Reach
      (Move json sockets settings)
      (record { shared = stale; work = λ _. idle })
      (moved 1 (moved 1 (moved 0 wanted)))
interleaved =
    let first = later start (pick 0 (Threads.start request_bytes)) in
    let second = later first (pick 1 (Threads.start request_bytes)) in
    later (later (later second (pick 0 (go_on _))) (pick 1 (go_on _))) (pick 1 (go_on _))

stale-IsOwned : IsOwned settings stale
stale-IsOwned = record { once = λ c. ground arith; bounded = omega arith }

held_by_first : held ((moved 1 (moved 1 (moved 0 wanted))).work 0) ≡ some 0
unfolding proceed take use_connection connected
held_by_first = refl

reach-IsOwned_example :
    IsOwned settings (moved 1 (moved 1 (moved 0 wanted))).shared
    × Owns
        (moved 1 (moved 1 (moved 0 wanted))).shared
        (held ((moved 1 (moved 1 (moved 0 wanted))).work 0))
    × (◌≡◌ {A = ℕ} 0 1
        ⊎ AreApart
            (held ((moved 1 (moved 1 (moved 0 wanted))).work 0))
            (held ((moved 1 (moved 1 (moved 0 wanted))).work 1)))
reach-IsOwned_example =
    reach-IsOwned json sockets settings stale (moved 1 (moved 1 (moved 0 wanted))) 0 1 stale-IsOwned
      interleaved

opened_by_second : 1 < (moved 1 (moved 1 (moved 0 wanted))).shared.next
unfolding proceed take use_connection connected
opened_by_second = omega arith

reach-KnownToSome_example : KnownToSome json sockets settings 1 (moved 1 (moved 1 (moved 0 wanted)))
reach-KnownToSome_example =
    reach-KnownToSome json sockets settings 1 stale (moved 1 (moved 1 (moved 0 wanted)))
      (λ d below. ground (arith, below)) interleaved opened_by_second
