-- ===== src/Exporter/Scaler/Laws.antt =====
-- The number of workers over a run.
use metrics_governor.Prelude.{ℕ, zero, suc, ◌+◌, ◌-◌, ◌^◌, ◌≤◌, ◌<◌, ◌≡◌, List, [], ◌∷◌, arith}
use metrics_governor.Exporter.Workers.{
  Workers, start_workers, start_pipeline_split_workers, add_sender, remove_sender, times,
}
use metrics_governor.Exporter.Scaler.{
  ScalerConfig, WorkerScaler, Calls, new_worker_scaler, with_defaults, start, record_latency,
  scales_up, idle_in, decide,
}

pub data Event : Type 0 where
  observes : ℕ → Event
  decides : ℕ → ℕ → Event

-- The workers after the calls of a decision.
unfoldable pub perform : Calls → Workers → Workers
perform calls w = times calls.removed remove_sender (times calls.added add_sender w)

unfoldable pub step : (ℕ → ℕ → ℕ) → WorkerScaler × Workers → Event → WorkerScaler × Workers
step smooth (ws, workers) (observes d) = (record_latency smooth ws d, workers)
step smooth (ws, workers) (decides depth now) =
    let r = decide ws depth now in (r.0, perform r.1 workers)

unfoldable pub run : (ℕ → ℕ → ℕ) → WorkerScaler × Workers → List Event → WorkerScaler × Workers
run smooth st [] = st
run smooth st (e ∷ es) = run smooth (step smooth st e) es

abbrev pub IsSound : ScalerConfig → Type 0
IsSound cfg =
    (0 < cfg.min_workers) × (cfg.min_workers ≤ cfg.max_workers) × (cfg.max_workers < 2 ^ 31)

times-remove_sender :
    (n : ℕ) (w : Workers)
    → n ≤ w.stops
    → n ≤ w.running
    → ((times n remove_sender w).running ≡ w.running - n)
      × ((times n remove_sender w).stops ≡ w.stops - n)
unfolding times remove_sender
times-remove_sender zero w h k = ground arith
times-remove_sender (suc n) w h k =
    ground (arith, times-remove_sender n (record { running = w.running - 1; stops = w.stops - 1 }))

times-add_sender :
    (n : ℕ) (w : Workers)
    → ((times n add_sender w).running ≡ w.running + n)
      × ((times n add_sender w).stops ≡ w.stops + n)
unfolding times add_sender
times-add_sender zero w = ground arith
times-add_sender (suc n) w =
    ground (arith, times-add_sender n (record { running = w.running + 1; stops = w.stops + 1 }))

perform_lem :
    (c : Calls) (w : Workers)
    → c.removed ≤ w.stops + c.added
    → w.stops ≤ w.running
    → ((perform c w).running ≡ w.running + c.added - c.removed)
      × ((perform c w).stops ≡ w.stops + c.added - c.removed)
unfolding perform
perform_lem c w h k =
    let a = times-add_sender c.added w in
    ground (arith, a, times-remove_sender c.removed (times c.added add_sender w))

abbrev IsWithin : ScalerConfig → WorkerScaler × Workers → Type 0
IsWithin cfg (ws, workers) =
    (ws.config ≡ cfg)
    × (workers.running ≡ ws.current_count)
    × (workers.stops ≡ ws.current_count)
    × (cfg.min_workers ≤ ws.current_count)
    × (ws.current_count ≤ cfg.max_workers)

decide-IsWithin :
    (cfg : ScalerConfig) (ws : WorkerScaler) (depth now : ℕ)
    → IsSound cfg
    → ws.config ≡ cfg
    → cfg.min_workers ≤ ws.current_count
    → ws.current_count ≤ cfg.max_workers
    → (let r = decide ws depth now in
        (r.0.config ≡ cfg)
        × (r.1.removed ≤ ws.current_count + r.1.added)
        × (r.0.current_count ≡ ws.current_count + r.1.added - r.1.removed)
        × (cfg.min_workers ≤ r.0.current_count)
        × (r.0.current_count ≤ cfg.max_workers))
unfolding decide scales_up idle_in
decide-IsWithin cfg ws depth now s c lo hi = ground arith

step-IsWithin :
    (smooth : ℕ → ℕ → ℕ) (cfg : ScalerConfig) (ws : WorkerScaler) (workers : Workers) (e : Event)
    → IsSound cfg
    → IsWithin cfg (ws, workers)
    → IsWithin cfg (step smooth (ws, workers) e)
unfolding step record_latency
step-IsWithin smooth cfg ws workers (observes d) s i = i
step-IsWithin smooth cfg ws workers (decides depth now) s (c, r, t, lo, hi) =
    let d = decide-IsWithin cfg ws depth now s c lo hi in
    let p = perform_lem (decide ws depth now).1 workers (omega (arith, t, d.1)) (omega arith) in
    (d.0, omega (arith, p.0, r, d.2), omega (arith, p.1, t, d.2), d.3, d.4)

run-IsWithin :
    (smooth : ℕ → ℕ → ℕ) (cfg : ScalerConfig) (ws : WorkerScaler) (workers : Workers)
    (es : List Event)
    → IsSound cfg
    → IsWithin cfg (ws, workers)
    → IsWithin cfg (run smooth (ws, workers) es)
unfolding run
run-IsWithin smooth cfg ws workers [] s i = i
run-IsWithin smooth cfg ws workers (e ∷ es) s i =
    let st = step smooth (ws, workers) e in
    run-IsWithin smooth cfg st.0 st.1 es s (step-IsWithin smooth cfg ws workers e s i)

-- With the senders of startPipelineSplitWorkers, a scaler that is started with their number, between the
-- minimum and the maximum of its settings, 0 < minimum ≤ maximum < 2^31, counts exactly the senders that run
-- and were not told to stop, those added and removed by its decisions included, and keeps them between the
-- minimum and the maximum through every sequence of latencies and decisions.
pub run_scaler-IsWithin :
    (smooth : ℕ → ℕ → ℕ) (cfg : ScalerConfig) (initial : ℕ) (es : List Event)
    → IsSound cfg
    → cfg.min_workers ≤ initial
    → initial ≤ cfg.max_workers
    → (let st =
          run smooth
            (start (new_worker_scaler cfg) initial, start_pipeline_split_workers initial)
            es in
        (st.1.running ≡ st.0.current_count)
        × (cfg.min_workers ≤ st.1.running)
        × (st.1.running ≤ cfg.max_workers))
unfolding start new_worker_scaler with_defaults start_pipeline_split_workers
run_scaler-IsWithin smooth cfg initial es s lo hi =
    let ws = start (new_worker_scaler cfg) initial in
    let i =
      run-IsWithin smooth ws.config ws (start_pipeline_split_workers initial) es (ground arith)
        (ground arith) in
    ground (arith, i)

times-remove_sender-base :
    (n base : ℕ) (w : Workers)
    → w.running ≡ base + w.stops
    → (times n remove_sender w).running ≡ base + (times n remove_sender w).stops
unfolding times remove_sender
times-remove_sender-base zero base w h = h
times-remove_sender-base (suc n) base w h =
    times-remove_sender-base n base (remove_sender w) (ground arith)

step-base :
    (smooth : ℕ → ℕ → ℕ) (base : ℕ) (st : WorkerScaler × Workers) (e : Event)
    → st.1.running ≡ base + st.1.stops
    → (step smooth st e).1.running ≡ base + (step smooth st e).1.stops
unfolding step perform
step-base smooth base (ws, w) (observes d) h = h
step-base smooth base (ws, w) (decides depth now) h =
    let c = (decide ws depth now).1 in
    let a = times-add_sender c.added w in
    times-remove_sender-base c.removed base (times c.added add_sender w) (omega (arith, a, h))

run-base :
    (smooth : ℕ → ℕ → ℕ) (base : ℕ) (st : WorkerScaler × Workers) (es : List Event)
    → st.1.running ≡ base + st.1.stops
    → (run smooth st es).1.running ≡ base + (run smooth st es).1.stops
unfolding run
run-base smooth base st [] h = h
run-base smooth base st (e ∷ es) h =
    run-base smooth base (step smooth st e) es (step-base smooth base st e h)

-- With the workers of startWorkers, no sequence of latencies and decisions stops one of them: at least as many
-- run as were started, whatever the scaler counts.
pub run_scaler_base :
    (smooth : ℕ → ℕ → ℕ) (ws : WorkerScaler) (workers : ℕ) (es : List Event)
    → workers ≤ (run smooth (ws, start_workers workers) es).1.running
unfolding start_workers
run_scaler_base smooth ws workers es =
    omega (arith, run-base smooth workers (ws, start_workers workers) es (ground arith))
