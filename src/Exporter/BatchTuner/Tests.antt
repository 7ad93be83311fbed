-- ===== src/Exporter/BatchTuner/Tests.antt =====
-- Runs of the tuner.
use metrics_governor.Prelude.{◌*◌, ◌/◌, ◌≡◌, ◌≤◌, ◌<◌, refl, List, [], ◌∷◌, none, some, arith}
use metrics_governor.Exporter.BatchTuner.{
  Factors, BatchTuner, new_batch_tuner, record_failure, record_success, grown, with_ceiling, is_413,
}
use metrics_governor.Exporter.BatchTuner.Laws.{
  Event, succeeds, fails, step, run, run_tuner-IsWithin, run_after_413, IsMonotone,
}

abbrev factors : Factors
factors = record { grow = λ n. n * 5 / 4; shrink = λ n. n / 2; four_fifths = λ n. n * 4 / 5 }

factors-IsMonotone : IsMonotone factors
factors-IsMonotone n = (omega arith, omega arith, omega arith)

abbrev events : List Event
events = fails (some 413) ∷ succeeds ∷ succeeds ∷ succeeds ∷ fails none ∷ []

run_tuner_sizes :
    (run factors (new_batch_tuner 100 1000 1) (fails (some 413) ∷ succeeds ∷ [])).current_max_bytes
    ≡ 625
unfolding run step new_batch_tuner record_failure record_success grown with_ceiling is_413
run_tuner_sizes = refl

run_tuner-IsWithin_example :
    let bt = run factors (new_batch_tuner 100 1000 1) events in
    (100 ≤ bt.current_max_bytes)
    × (bt.current_max_bytes ≤ 1000)
    × (0 < bt.hard_ceiling → bt.current_max_bytes ≤ bt.hard_ceiling)
run_tuner-IsWithin_example =
    run_tuner-IsWithin factors 100 1000 1 events factors-IsMonotone (omega arith) (omega arith)

abbrev tuner : BatchTuner
tuner = record {
  current_max_bytes = 1000;
  hard_ceiling = 0;
  consecutive_ok = 0;
  adjustments_up = 0;
  adjustments_down = 0;
  min_bytes = 100;
  max_bytes = 2000;
  success_streak = 1;
}

run_after_413_example :
    (run factors (record_failure factors tuner (some 413)) events).current_max_bytes ≤ 800
run_after_413_example = run_after_413 factors tuner events factors-IsMonotone (omega arith)
