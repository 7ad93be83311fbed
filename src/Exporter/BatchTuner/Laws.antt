-- ===== src/Exporter/BatchTuner/Laws.antt =====
-- The sizes over a run.
use metrics_governor.Prelude.{
  ℕ, ◌≤◌, ◌<◌, ◌≡◌, List, [], ◌∷◌, Option, none, some, arith, ltb, if◌then◌else◌,
}
use metrics_governor.Exporter.BatchTuner.{
  Factors, BatchTuner, new_batch_tuner, grown, record_success, record_failure, with_ceiling, is_413,
}

pub data Event : Type 0 where
  succeeds : Event
  fails : Option ℕ → Event

unfoldable pub step : Factors → BatchTuner → Event → BatchTuner
step k bt succeeds = record_success k bt
step k bt (fails error) = record_failure k bt error

unfoldable pub run : Factors → BatchTuner → List Event → BatchTuner
run k bt [] = bt
run k bt (e ∷ es) = run k (step k bt e) es

-- Growing does not shrink, shrinking does not grow, and four fifths are between what is shrunk and the whole.
abbrev pub IsMonotone : Factors → Type 0
IsMonotone k = (n : ℕ) → (n ≤ k.grow n) × (k.shrink n ≤ k.four_fifths n) × (k.four_fifths n ≤ n)

abbrev IsWithin : ℕ → ℕ → BatchTuner → Type 0
IsWithin low most bt =
    (bt.min_bytes ≡ low)
    × (bt.max_bytes ≡ most)
    × (low ≤ bt.current_max_bytes)
    × (bt.current_max_bytes ≤ most)
    × (0 < bt.hard_ceiling → bt.current_max_bytes ≤ bt.hard_ceiling)

step-IsWithin :
    (k : Factors) (low most : ℕ) (bt : BatchTuner) (e : Event)
    → IsMonotone k
    → IsWithin low most bt
    → IsWithin low most (step k bt e)
unfolding step record_success record_failure with_ceiling grown is_413
step-IsWithin k low most bt succeeds m i = ground (arith, m bt.current_max_bytes)
step-IsWithin k low most bt (fails none) m i = ground (arith, m bt.current_max_bytes)
step-IsWithin k low most bt (fails (some s)) m i = ground (arith, m bt.current_max_bytes)

run-IsWithin :
    (k : Factors) (low most : ℕ) (bt : BatchTuner) (es : List Event)
    → IsMonotone k
    → IsWithin low most bt
    → IsWithin low most (run k bt es)
unfolding run
run-IsWithin k low most bt [] m i = i
run-IsWithin k low most bt (e ∷ es) m i =
    run-IsWithin k low most (step k bt e) es m (step-IsWithin k low most bt e m i)

-- With a minimum and a maximum, 0 < minimum ≤ maximum, the batch size stays between them through every sequence of
-- results, and stays below the ceiling once there is one, where the factors of growth, of 413 and of
-- shrinking are ordered as 1 ≤ grow and shrink ≤ 0.8 ≤ 1.
pub run_tuner-IsWithin :
    (k : Factors) (low most streak : ℕ) (es : List Event)
    → IsMonotone k
    → 0 < low
    → low ≤ most
    → (let bt = run k (new_batch_tuner low most streak) es in
        (low ≤ bt.current_max_bytes)
        × (bt.current_max_bytes ≤ most)
        × (0 < bt.hard_ceiling → bt.current_max_bytes ≤ bt.hard_ceiling))
unfolding new_batch_tuner
run_tuner-IsWithin k low most streak es m p h =
    let i = run-IsWithin k low most (new_batch_tuner low most streak) es m (ground arith) in
    (i.2, i.3, i.4)

-- The ceiling is not above the limit, and the size not above the ceiling.
abbrev IsUnder : ℕ → BatchTuner → Type 0
IsUnder limit bt =
    (0 < bt.min_bytes)
    × (bt.min_bytes ≤ limit)
    × (0 < bt.hard_ceiling)
    × (bt.hard_ceiling ≤ limit)
    × (bt.current_max_bytes ≤ bt.hard_ceiling)
    × (bt.min_bytes ≤ bt.hard_ceiling)

step-IsUnder :
    (k : Factors) (limit : ℕ) (bt : BatchTuner) (e : Event)
    → IsMonotone k
    → IsUnder limit bt
    → IsUnder limit (step k bt e)
unfolding step record_success record_failure with_ceiling grown is_413
step-IsUnder k limit bt succeeds m i = ground (arith, m bt.current_max_bytes)
step-IsUnder k limit bt (fails none) m i = ground (arith, m bt.current_max_bytes)
step-IsUnder k limit bt (fails (some s)) m i = ground (arith, m bt.current_max_bytes)

run-IsUnder :
    (k : Factors) (limit : ℕ) (bt : BatchTuner) (es : List Event)
    → IsMonotone k
    → IsUnder limit bt
    → IsUnder limit (run k bt es)
unfolding run
run-IsUnder k limit bt [] m i = i
run-IsUnder k limit bt (e ∷ es) m i =
    run-IsUnder k limit (step k bt e) es m (step-IsUnder k limit bt e m i)

-- After a batch is refused with 413, no sequence of results brings the size above four fifths of what it
-- was, or above the minimum where that is larger; the minimum is positive and the factors are ordered as
-- 1 ≤ grow and shrink ≤ 0.8 ≤ 1.
pub run_after_413 :
    (k : Factors) (bt : BatchTuner) (es : List Event)
    → IsMonotone k
    → 0 < bt.min_bytes
    → (run k (record_failure k bt (some 413)) es).current_max_bytes ≤ (
        if ltb (k.four_fifths bt.current_max_bytes) bt.min_bytes
        then bt.min_bytes
        else k.four_fifths bt.current_max_bytes)
unfolding record_failure with_ceiling is_413
run_after_413 k bt es m p =
    let limit =
      if ltb (k.four_fifths bt.current_max_bytes) bt.min_bytes
      then bt.min_bytes
      else k.four_fifths bt.current_max_bytes in
    let u =
      run-IsUnder k limit (record_failure k bt (some 413)) es m
        (ground (arith, m bt.current_max_bytes)) in
    omega (arith, u)
