-- ===== src/Exporter/Scaler/Tests.antt =====
-- Runs of the scaler on small settings.
use metrics_governor.Prelude.{true, ℕ, ◌+◌, ◌*◌, ◌/◌, ◌≡◌, ◌≤◌, refl, List, [], ◌∷◌, arith}
use metrics_governor.Exporter.Workers.{
  start_workers, start_pipeline_split_workers, add_sender, remove_sender, times,
}
use metrics_governor.Exporter.Scaler.{
  ScalerConfig, WorkerScaler, new_worker_scaler, with_defaults, start, decide, scales_up, idle_in,
  record_latency,
}
use metrics_governor.Exporter.Scaler.Laws.{
  Event, observes, decides, step, run, perform, run_scaler-IsWithin, run_scaler_base,
}
use metrics_governor.Exporter.Scaler.Idle.{idle_pairs, idle_pairs_reach_min}

abbrev config : ScalerConfig
config = record {
  min_workers = 2;
  max_workers = 8;
  high_water_mark = 100;
  low_water_mark = 10;
  max_latency = 500;
  sustained_idle_secs = 30;
}

abbrev smooth : ℕ → ℕ → ℕ
smooth d old = (3 * d + 7 * old) / 10

abbrev events : List Event
events = decides 200 1 ∷ observes 900 ∷ decides 200 2 ∷ decides 3 10 ∷ decides 3 40 ∷ []

run_scaler_workers :
    (run smooth (start (new_worker_scaler config) 4, start_pipeline_split_workers 4) events).1
    ≡ record { running = 2; stops = 2 }
unfolding run step perform times add_sender remove_sender start new_worker_scaler with_defaults
    decide scales_up idle_in record_latency start_pipeline_split_workers
run_scaler_workers = refl

-- The scaler counts two workers, and four run.
run_scaler_counts :
    let st = run smooth (start (new_worker_scaler config) 4, start_workers 4) events in
    (st.0.current_count ≡ 2) × (st.1.running ≡ 4)
unfolding run step perform times add_sender remove_sender start new_worker_scaler with_defaults
    decide scales_up idle_in record_latency start_workers
run_scaler_counts = (refl, refl)

run_scaler-IsWithin_example :
    let st =
      run smooth (start (new_worker_scaler config) 4, start_pipeline_split_workers 4) events in
    (st.1.running ≡ st.0.current_count) × (2 ≤ st.1.running) × (st.1.running ≤ 8)
run_scaler-IsWithin_example =
    run_scaler-IsWithin smooth config 4 events (omega arith, omega arith, omega arith) (omega arith)
      (omega arith)

run_scaler_base_example :
    4 ≤ (run smooth (start (new_worker_scaler config) 4, start_workers 4) events).1.running
run_scaler_base_example = run_scaler_base smooth (start (new_worker_scaler config) 4) 4 events

abbrev busy : WorkerScaler
busy = record {
  config = config;
  latency_ewma = 0;
  idle_start = 0;
  current_count = 7;
  started = true;
}

idle_pairs_reach_min_example : (idle_pairs 2 busy 3 1000).current_count ≡ 2
idle_pairs_reach_min_example =
    idle_pairs_reach_min 2 busy 3 1000 (omega arith) (omega arith) (omega arith) refl (omega arith)
      (omega arith) (omega arith)
