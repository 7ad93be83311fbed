-- ===== src/Exporter/Scaler.antt =====
-- The worker scaler of internal/exporter/scaler.go. Durations are whole numbers of nanoseconds, the clock of `decide` is
-- in Unix seconds, and the float64 arithmetic of the moving average is a parameter. Negative settings are passed
-- as 0. The ticker and the goroutine are left out: a run is the sequence of the calls.
pub mod Laws
pub mod Idle
mod Tests
use metrics_governor.Prelude.{
  ℕ, zero, suc, ◌+◌, ◌-◌, ◌*◌, ◌/◌, ◌%◌, ◌^◌, Bool, true, false, ◌&&◌, ◌||◌, List, [], ◌∷◌, ltb,
  leb, ◌==◌, if◌then◌else◌,
}
use metrics_governor.Exporter.CircuitBreaker.{add_int32}

pub record ScalerConfig : Type 0 where
  pub min_workers : ℕ
  pub max_workers : ℕ
  pub high_water_mark : ℕ
  pub low_water_mark : ℕ
  pub max_latency : ℕ
  pub sustained_idle_secs : ℕ

-- `current_count` is the pattern of an int32.
pub record WorkerScaler : Type 0 where
  pub config : ScalerConfig
  pub latency_ewma : ℕ
  pub idle_start : ℕ
  pub current_count : ℕ
  pub started : Bool

abbrev or_default : ℕ → ℕ → ℕ
or_default v w = if v == 0 then w else v

-- The defaults of NewWorkerScaler.
unfoldable pub with_defaults : ScalerConfig → ScalerConfig
with_defaults cfg =
    let min_workers = or_default cfg.min_workers 1 in
    record {
      min_workers = min_workers;
      max_workers = or_default cfg.max_workers (min_workers * 4);
      high_water_mark = or_default cfg.high_water_mark 100;
      low_water_mark = or_default cfg.low_water_mark 10;
      max_latency = or_default cfg.max_latency (500 * 10 ^ 6);
      sustained_idle_secs = or_default cfg.sustained_idle_secs 30;
    }

unfoldable pub new_worker_scaler : ScalerConfig → WorkerScaler
new_worker_scaler cfg = record {
  config = with_defaults cfg;
  latency_ewma = 0;
  idle_start = 0;
  current_count = 0;
  started = false;
}

unfoldable pub start : WorkerScaler → ℕ → WorkerScaler
start ws initial_workers =
    if ws.started
    then ws
    else record ws { started = true; current_count = initial_workers % 2 ^ 32 }

-- `smooth d old` is `int64(alpha*float64(d) + (1-alpha)*float64(old))`.
unfoldable pub record_latency : (ℕ → ℕ → ℕ) → WorkerScaler → ℕ → WorkerScaler
record_latency smooth ws d = record ws {
  latency_ewma = if ws.latency_ewma == 0 then d else smooth d ws.latency_ewma;
}

-- An int32 against an int that is not negative.
abbrev is_below : ℕ → ℕ → Bool
is_below count n = leb (2 ^ 31) count || ltb count n

abbrev is_above : ℕ → ℕ → Bool
is_above count n = ltb count (2 ^ 31) && ltb n count

unfoldable pub scales_up : WorkerScaler → ℕ → Bool
scales_up ws depth =
    ltb ws.config.high_water_mark depth
    && is_below ws.current_count ws.config.max_workers
    && (leb ws.latency_ewma ws.config.max_latency || ws.latency_ewma == 0)

-- `target`
abbrev halved : WorkerScaler → ℕ
halved ws =
    let target = ws.current_count / 2 in
    if ltb target ws.config.min_workers then ws.config.min_workers else target

-- The calls of `addWorker` and of `removeWorker`.
pub record Calls : Type 0 where
  pub added : ℕ
  pub removed : ℕ

abbrev pub no_calls : Calls
no_calls = record { added = 0; removed = 0 }

unfoldable pub idle_in : WorkerScaler → ℕ → WorkerScaler × Calls
idle_in ws now =
    if ws.idle_start == 0
    then (record ws { idle_start = now }, no_calls)
    else if leb (ws.idle_start + ws.config.sustained_idle_secs) now
        && is_above ws.current_count ws.config.min_workers
    then (
      record ws { current_count = halved ws; idle_start = 0 },
      record { added = 0; removed = ws.current_count - halved ws },
    )
    else (ws, no_calls)

-- `decide`, with the depth of the queue and the clock.
unfoldable pub decide : WorkerScaler → ℕ → ℕ → WorkerScaler × Calls
decide ws depth now =
    if scales_up ws depth
    then (
      record ws { current_count = add_int32 ws.current_count; idle_start = 0 },
      record { added = 1; removed = 0 },
    )
    else if ltb depth ws.config.low_water_mark
    then idle_in ws now
    else (record ws { idle_start = 0 }, no_calls)
