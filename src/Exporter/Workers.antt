-- ===== src/Exporter/Workers.antt =====
-- The workers of a QueuedExporter of internal/exporter/queued.go that the scaler adds and removes. `running` counts the
-- goroutines that run and were not told to stop, and `stops` the entries of `workerStops`, whose keys are
-- distinct since every worker takes the next number. What the goroutines do is left out.
mod Tests
use metrics_governor.Prelude.{ℕ, zero, suc, ◌+◌, ◌-◌, ◌==◌, if◌then◌else◌}

pub record Workers : Type 0 where
  pub running : ℕ
  pub stops : ℕ

-- `startWorkers` stores no stop channels.
unfoldable pub start_workers : ℕ → Workers
start_workers workers = record { running = workers; stops = 0 }

-- The senders of `startPipelineSplitWorkers`.
unfoldable pub start_pipeline_split_workers : ℕ → Workers
start_pipeline_split_workers sender_count = record { running = sender_count; stops = sender_count }

unfoldable pub add_sender : Workers → Workers
add_sender w = record { running = w.running + 1; stops = w.stops + 1 }

-- One sender that is found in `workerStops`, if there is one, is told to stop.
unfoldable pub remove_sender : Workers → Workers
remove_sender w =
    if w.stops == 0 then w else record { running = w.running - 1; stops = w.stops - 1 }

-- A number of calls in a row.
unfoldable pub times : ℕ → (Workers → Workers) → Workers → Workers
times zero call w = w
times (suc n) call w = times n call (call w)
