-- ===== src/Exporter/CircuitBreaker/Tests.antt =====
-- The circuit breaker at concrete inputs.
use metrics_governor.Prelude.{◌≡◌, refl, [], ◌∷◌, true, arith}
use metrics_governor.Exporter.CircuitBreaker.{
  CircuitBreaker, closed, opened, half_open, new_circuit_breaker, allow_request, record_success,
  record_failure, asks, succeeds, fails, step, run, fail_times,
}
use metrics_governor.Exporter.CircuitBreaker.Laws.{IsValid, run_breaker-IsValid}
use metrics_governor.Exporter.CircuitBreaker.Race
use metrics_governor.Exporter.CircuitBreaker.Race.{
  returned, both_start, overlap, alone, run-alone, run-overlap_two_probes, run_half_open_one_probe,
}

abbrev fresh : CircuitBreaker
fresh = record {
  state = closed;
  consecutive_fails = 1;
  last_failure = 90;
  last_state_change = 0;
  half_open_probe = 0;
  failure_threshold = 3;
  reset_timeout = 30;
}

abbrev tripped : CircuitBreaker
tripped = record fresh { state = opened; consecutive_fails = 3; last_failure = 100 }

abbrev testing : CircuitBreaker
testing = record tripped { state = half_open; half_open_probe = 1 }

two_failures : (fail_times 2 fresh 100).state ≡ opened
unfolding fail_times record_failure
two_failures = refl

recovers : (run tripped (asks 120 ∷ asks 130 ∷ succeeds 131 ∷ [])).state ≡ closed
unfolding run step allow_request record_success
recovers = refl

run_breaker-IsValid_example :
    IsValid (run (new_circuit_breaker 2 30) (fails 5 ∷ fails 6 ∷ asks 40 ∷ []))
run_breaker-IsValid_example =
    run_breaker-IsValid 2 30 (fails 5 ∷ fails 6 ∷ asks 40 ∷ []) (omega arith) (omega arith)

fresh-IsValid : IsValid fresh
fresh-IsValid = ground arith

tripped-IsValid : IsValid tripped
tripped-IsValid = ground arith

run-overlap_two_probes_example :
    ((Race.run 130 (both_start tripped) overlap).first ≡ returned true)
    × ((Race.run 130 (both_start tripped) overlap).second ≡ returned true)
    × ((Race.run 130 (both_start tripped) overlap).breaker.state ≡ half_open)
run-overlap_two_probes_example =
    run-overlap_two_probes tripped 130 tripped-IsValid refl (omega arith)

run_half_open_one_probe_example : ¬ (
    ((Race.run 130 (both_start testing) overlap).first ≡ returned true)
    × ((Race.run 130 (both_start testing) overlap).second ≡ returned true))
run_half_open_one_probe_example = run_half_open_one_probe testing 130 overlap refl
