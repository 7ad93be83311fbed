-- ===== src/Exporter/BatchTuner.antt =====
-- The batch tuner of internal/exporter/batchtuner.go. The products with float64 factors are parameters.
-- An error is a status, or `none` where it is no ExportError or there is none. The calls run one after the other.
pub mod Laws
mod Tests
use metrics_governor.Prelude.{
  ℕ, ◌+◌, ◌*◌, ◌%◌, ◌^◌, Bool, true, false, not, ◌&&◌, Option, none, some, ltb, leb, ◌==◌,
  if◌then◌else◌,
}

-- `int64(float64(n) * growFactor)`, with shrinkFactor, and with 0.8.
pub record Factors : Type 0 where
  pub grow : ℕ → ℕ
  pub shrink : ℕ → ℕ
  pub four_fifths : ℕ → ℕ

-- `consecutive_ok` is the pattern of an int32.
pub record BatchTuner : Type 0 where
  pub current_max_bytes : ℕ
  pub hard_ceiling : ℕ
  pub consecutive_ok : ℕ
  pub adjustments_up : ℕ
  pub adjustments_down : ℕ
  pub min_bytes : ℕ
  pub max_bytes : ℕ
  pub success_streak : ℕ

-- Settings that are not positive are passed as 0.
unfoldable pub new_batch_tuner : ℕ → ℕ → ℕ → BatchTuner
new_batch_tuner min_bytes max_bytes success_streak =
    let most = if max_bytes == 0 then 16 * 1024 * 1024 else max_bytes in
    record {
      current_max_bytes = most;
      hard_ceiling = 0;
      consecutive_ok = 0;
      adjustments_up = 0;
      adjustments_down = 0;
      min_bytes = if min_bytes == 0 then 512 else min_bytes;
      max_bytes = most;
      success_streak = if success_streak == 0 then 10 else success_streak;
    }

-- `newMax` of RecordSuccess.
unfoldable pub grown : Factors → BatchTuner → ℕ
grown k bt =
    let wanted = k.grow bt.current_max_bytes in
    let below_ceiling =
      if ltb 0 bt.hard_ceiling && ltb bt.hard_ceiling wanted then bt.hard_ceiling else wanted in
    if ltb bt.max_bytes below_ceiling then bt.max_bytes else below_ceiling

unfoldable pub record_success : Factors → BatchTuner → BatchTuner
record_success k bt =
    let streak = (bt.consecutive_ok + 1) % 2 ^ 32 in
    if ltb streak (2 ^ 31) && leb bt.success_streak streak
    then (let new_max = grown k bt in
        if new_max == bt.current_max_bytes then record bt { consecutive_ok = 0 } else record bt {
          consecutive_ok = 0;
          current_max_bytes = new_max;
          adjustments_up = bt.adjustments_up + 1;
        })
    else record bt { consecutive_ok = streak }

abbrev at_least : ℕ → ℕ → ℕ
at_least low v = if ltb v low then low else v

unfoldable pub is_413 : Option ℕ → Bool
is_413 none = false
is_413 (some status) = status == 413

unfoldable pub with_ceiling : Factors → BatchTuner → Option ℕ → BatchTuner
with_ceiling k bt error =
    if is_413 error
    then record bt { hard_ceiling = at_least bt.min_bytes (k.four_fifths bt.current_max_bytes) }
    else bt

unfoldable pub record_failure : Factors → BatchTuner → Option ℕ → BatchTuner
record_failure k bt error =
    let bt' = with_ceiling k (record bt { consecutive_ok = 0 }) error in
    let new_max = at_least bt.min_bytes (k.shrink bt.current_max_bytes) in
    if new_max == bt.current_max_bytes
    then bt'
    else record bt' { current_max_bytes = new_max; adjustments_down = bt.adjustments_down + 1 }
