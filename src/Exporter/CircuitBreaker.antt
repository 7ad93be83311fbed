-- ===== src/Exporter/CircuitBreaker.antt =====
-- The circuit breaker of internal/exporter/queued.go. Each method is one function of the clock
-- reading `now` (Unix seconds) and the state. `CircuitBreaker.Race` has the methods as the atomic
-- operations that they are made of.
pub mod Laws
pub mod Race
mod Tests
use metrics_governor.Prelude.{
  ℕ, zero, suc, List, [], ◌∷◌, ◌+◌, ◌^◌, ◌%◌, Bool, true, false, ◌&&◌, ltb, leb, ◌==◌,
  if◌then◌else◌,
}

pub data CircuitState : Type 0 where
  closed opened half_open : CircuitState

-- The atomics of the struct. `consecutive_fails` is the bit pattern of an int32.
-- `reset_timeout` is `int64(resetTimeout.Seconds())`, a whole number of seconds.
pub record CircuitBreaker : Type 0 where
  pub state : CircuitState
  pub consecutive_fails : ℕ
  pub last_failure : ℕ
  pub last_state_change : ℕ
  pub half_open_probe : ℕ
  pub failure_threshold : ℕ
  pub reset_timeout : ℕ

pub new_circuit_breaker : ℕ → ℕ → CircuitBreaker
new_circuit_breaker threshold timeout = record {
  state = closed;
  consecutive_fails = 0;
  last_failure = 0;
  last_state_change = 0;
  half_open_probe = 0;
  failure_threshold = threshold;
  reset_timeout = timeout;
}

-- `atomic.Int32.Add(1)`
abbrev pub add_int32 : ℕ → ℕ
add_int32 n = (n + 1) % 2 ^ 32

-- `int(fails) >= threshold` on the bit pattern: from 2^31 on it stands for a negative number.
abbrev pub reaches : ℕ → ℕ → Bool
reaches fails threshold = ltb fails (2 ^ 31) && leb threshold fails

-- `time.Now().Unix()-lastFail >= int64(cb.resetTimeout.Seconds())`
abbrev pub timed_out : CircuitBreaker → ℕ → Bool
timed_out cb now = leb (cb.last_failure + cb.reset_timeout) now

allow_in : CircuitState → CircuitBreaker → ℕ → CircuitBreaker × Bool
allow_in closed cb now = (cb, true)
allow_in opened cb now =
    if timed_out cb now
    then (record cb { state = half_open; half_open_probe = 1; last_state_change = now }, true)
    else (cb, false)
allow_in half_open cb now =
    if cb.half_open_probe == 0 then (record cb { half_open_probe = 1 }, true) else (cb, false)

pub allow_request : CircuitBreaker → ℕ → CircuitBreaker × Bool
unfolding allow_in
allow_request cb now = allow_in cb.state cb now

success_in : CircuitState → CircuitBreaker → ℕ → CircuitBreaker
success_in half_open cb now = record cb {
  consecutive_fails = 0;
  half_open_probe = 0;
  state = closed;
  last_state_change = now;
}
success_in _ cb now = record cb { consecutive_fails = 0 }

pub record_success : CircuitBreaker → ℕ → CircuitBreaker
unfolding success_in
record_success cb now = success_in cb.state cb now

-- The counter and the time of the failure are stored before the state is read.
failure_in : CircuitState → CircuitBreaker → ℕ → CircuitBreaker
failure_in half_open cb now = record cb {
  half_open_probe = 0;
  state = opened;
  last_state_change = now;
}
failure_in closed cb now =
    if reaches cb.consecutive_fails cb.failure_threshold
    then record cb { state = opened; last_state_change = now }
    else cb
failure_in opened cb now = cb

pub record_failure : CircuitBreaker → ℕ → CircuitBreaker
unfolding failure_in
record_failure cb now =
    failure_in cb.state
      (record cb { consecutive_fails = add_int32 cb.consecutive_fails; last_failure = now }) now

-- A use of the breaker by the export loop, at a time.
pub data Event : Type 0 where
  asks succeeds fails : ℕ → Event

pub step : CircuitBreaker → Event → CircuitBreaker
step cb (asks now) = (allow_request cb now).0
step cb (succeeds now) = record_success cb now
step cb (fails now) = record_failure cb now

pub run : CircuitBreaker → List Event → CircuitBreaker
run cb [] = cb
run cb (e ∷ es) = run (step cb e) es

-- Requests at the given times, with what each is told.
pub asks_all : CircuitBreaker → List ℕ → List Bool
asks_all cb [] = []
asks_all cb (now ∷ nows) = (allow_request cb now).1 ∷ asks_all (allow_request cb now).0 nows

-- `n` failures in a row.
pub fail_times : ℕ → CircuitBreaker → ℕ → CircuitBreaker
fail_times zero cb now = cb
fail_times (suc n) cb now = fail_times n (record_failure cb now) now
