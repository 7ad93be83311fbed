-- ===== src/Exporter/CircuitBreaker/Laws.antt =====
-- What the breaker guarantees when its methods do not overlap.
use metrics_governor.Prelude.{
  ℕ, suc, zero, ◌+◌, ◌^◌, ◌≤◌, ◌<◌, ◌≡◌, refl, ◌≢◌, List, [], ◌∷◌, true, false, map, arith, leb,
  if◌then◌else◌,
}
use metrics_governor.Exporter.CircuitBreaker.{
  CircuitBreaker, closed, opened, half_open, new_circuit_breaker, allow_request, record_success,
  record_failure, Event, asks, succeeds, fails, step, run, asks_all, fail_times,
}

pub record IsValid (cb : CircuitBreaker) : Type 0 where
  pub positive : 0 < cb.failure_threshold
  pub small : cb.failure_threshold < 2 ^ 31
  pub no_probe : cb.state ≢ half_open → cb.half_open_probe ≡ 0
  pub one_probe : cb.half_open_probe ≤ 1
  pub below : cb.state ≡ closed → cb.consecutive_fails < cb.failure_threshold

step-IsValid : (cb : CircuitBreaker) (e : Event) → IsValid cb → IsValid (step cb e)
unfolding step allow_request record_success record_failure
step-IsValid cb (asks now) v = ground arith
step-IsValid cb (succeeds now) v = ground arith
step-IsValid cb (fails now) v = ground arith

run-IsValid : (cb : CircuitBreaker) (es : List Event) → IsValid cb → IsValid (run cb es)
unfolding run
run-IsValid cb [] v = v
run-IsValid cb (e ∷ es) v = run-IsValid (step cb e) es (step-IsValid cb e v)

-- A breaker made with a threshold between 1 and 2^31 - 1 keeps its invariant through every sequence
-- of calls: a probe is in flight only in the half-open state, and at most one; while the circuit is
-- closed the failures counted are fewer than the threshold, so the int32 counter has not wrapped.
pub run_breaker-IsValid :
    (threshold timeout : ℕ) (es : List Event)
    → 0 < threshold
    → threshold < 2 ^ 31
    → IsValid (run (new_circuit_breaker threshold timeout) es)
unfolding new_circuit_breaker
run_breaker-IsValid threshold timeout es h k = run-IsValid _ es (ground arith)

fail_times_open :
    (n : ℕ) (cb : CircuitBreaker) (now : ℕ)
    → cb.state ≡ opened
    → (fail_times n cb now).state ≡ opened
unfolding fail_times record_failure
fail_times_open zero cb now h = h
fail_times_open (suc n) cb now h = fail_times_open n (record_failure cb now) now (ground arith)

-- From a valid closed breaker, `n` failures in a row open the circuit exactly when they bring the
-- count of consecutive failures to the threshold, and leave it closed otherwise.
fail_times_opens :
    (n : ℕ) (cb : CircuitBreaker) (now : ℕ)
    → IsValid cb
    → cb.state ≡ closed
    → (fail_times n cb now).state
      ≡ (if leb cb.failure_threshold (cb.consecutive_fails + n) then opened else closed)
unfolding fail_times record_failure step
fail_times_opens zero cb now v h = ground arith
fail_times_opens (suc n) cb now v h = ground (
  arith,
  step-IsValid cb (fails now) v,
  fail_times_opens n (record_failure cb now) now,
  fail_times_open n (record_failure cb now) now,
)

-- An open circuit refuses every request until the reset timeout has passed since the last failure,
-- and does not change.
pub allow_request_waits :
    (cb : CircuitBreaker) (now : ℕ)
    → cb.state ≡ opened
    → now < cb.last_failure + cb.reset_timeout
    → allow_request cb now ≡ (cb, false)
unfolding allow_request
allow_request_waits cb now h k = ground arith

refused :
    (cb : CircuitBreaker) (nows : List ℕ)
    → cb.state ≡ half_open
    → cb.half_open_probe ≡ 1
    → asks_all cb nows ≡ map (λ _. false) nows
unfolding asks_all allow_request
refused cb [] h k = refl
refused cb (now ∷ nows) h k = ground (arith, refused cb nows h k)

-- Of any number of requests that follow one another on an open circuit, from the moment the timeout
-- has passed and with no outcome recorded between them, the first is let through as the probe and
-- all the others are refused.
pub asks_all_one_probe :
    (cb : CircuitBreaker) (now : ℕ) (nows : List ℕ)
    → cb.state ≡ opened
    → cb.last_failure + cb.reset_timeout ≤ now
    → asks_all cb (now ∷ nows) ≡ true ∷ map (λ _. false) nows
unfolding asks_all allow_request
asks_all_one_probe cb now nows h k = ground (
  arith,
  refused (record cb { state = half_open; half_open_probe = 1; last_state_change = now }) nows refl
      refl,
)

-- The outcome of the probe decides the half-open state: a success closes the circuit with no
-- failure counted, and a failure opens it again with the timeout counted from that moment; either
-- way no probe is left in flight.
pub probe_outcome :
    (cb : CircuitBreaker) (now : ℕ)
    → cb.state ≡ half_open
    → let s = record_success cb now in
      let f = record_failure cb now in
      (s.state ≡ closed)
      × (s.consecutive_fails ≡ 0)
      × (s.half_open_probe ≡ 0)
      × (f.state ≡ opened)
      × (f.last_failure ≡ now)
      × (f.half_open_probe ≡ 0)
unfolding record_success record_failure
probe_outcome cb now h = ground arith
