-- ===== src/Exporter/Workers/Tests.antt =====
-- Workers that are removed.
use metrics_governor.Prelude.{◌≡◌, refl}
use metrics_governor.Exporter.Workers.{
  start_workers, start_pipeline_split_workers, add_sender, remove_sender, times,
}

-- A worker of startWorkers is not removed.
removes_none : times 2 remove_sender (add_sender (start_workers 4)) ≡ start_workers 4
unfolding times remove_sender add_sender start_workers
removes_none = refl

removes_sender : remove_sender (start_pipeline_split_workers 4) ≡ record { running = 3; stops = 3 }
unfolding remove_sender start_pipeline_split_workers
removes_sender = refl
