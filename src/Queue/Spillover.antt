-- ===== src/Queue/Spillover.antt =====
-- `SpilloverState` of internal/queue/batchqueue.go: the graduated spillover from memory to disk. The
-- utilization is a float64, whose operations are parameters; percentages are natural numbers. The clock is an argument, and
-- gauges and histograms are left out.
pub mod Laws
mod Tests
use metrics_governor.Prelude.{
  ℕ, zero, suc, ◌+◌, ◌-◌, ◌%◌, ◌^◌, Bool, true, false, not, ◌&&◌, List, [], ◌∷◌, Option, none, some,
  leb, ltb, ◌==◌, if◌then◌else◌,
}

-- The float64 operations of `Evaluate`: `float64(n) / 100.0`, `+`, `>=`, `<` and two literals.
pub record FloatOps (F : Type 0) : Type 0 where
  pub of_percent : ℕ → F
  pub add : F → F → F
  pub geb : F → F → Bool
  pub ltb : F → F → Bool
  pub lit_0_10 : F
  pub lit_0_15 : F

pub data SpilloverMode : Type 0 where
  memory_only partial_disk all_disk load_shedding : SpilloverMode

-- The number behind the constant.
unfoldable pub level : SpilloverMode → ℕ
level memory_only = 0
level partial_disk = 1
level all_disk = 2
level load_shedding = 3

-- `s.mode - 1`
lower : SpilloverMode → SpilloverMode
lower memory_only = memory_only
lower partial_disk = memory_only
lower all_disk = partial_disk
lower load_shedding = all_disk

-- `start_time` is `none` where the source has the zero time.
pub record SpilloverState : Type 0 where
  pub mode : SpilloverMode
  pub counter : ℕ
  pub start_time : Option ℕ

pub new_spillover_state : SpilloverState
new_spillover_state = record { mode = memory_only; counter = 0; start_time = none }

module _ {F : Type 0} (fl : FloatOps F) where
  pub target_mode : F → ℕ → ℕ → SpilloverMode → SpilloverMode
  target_mode utilization spill_pct hysteresis_pct mode =
      if fl.geb utilization (fl.add (fl.of_percent spill_pct) fl.lit_0_15)
      then load_shedding
      else if fl.geb utilization (fl.add (fl.of_percent spill_pct) fl.lit_0_10)
      then all_disk
      else if fl.geb utilization (fl.of_percent spill_pct)
      then partial_disk
      else if fl.ltb utilization (fl.of_percent hysteresis_pct)
      then memory_only
      else mode

-- The escalation and the bounded de-escalation towards a target.
pub move_to : SpilloverMode → SpilloverMode → SpilloverMode
unfolding level lower
move_to target mode =
    if ltb (level mode) (level target)
    then target
    else if ltb (level target) (level mode)
    then if level target == 0 then memory_only else lower mode
    else mode

module _ {F : Type 0} (fl : FloatOps F) where
  pub evaluate : ℕ → F → ℕ → ℕ → SpilloverState → SpilloverState
  unfolding target_mode move_to level
  evaluate now utilization spill_pct hysteresis_pct s =
      let mode = move_to (target_mode fl utilization spill_pct hysteresis_pct s.mode) s.mode in
      record s {
        mode = mode;
        start_time = if level s.mode == 0 && not (level mode == 0) then some now else s.start_time;
      }

  -- The modes of evaluations at the given times and utilizations.
  pub run_evaluate : ℕ → ℕ → SpilloverState → List (ℕ × F) → SpilloverState
  run_evaluate spill_pct hysteresis_pct s [] = s
  run_evaluate spill_pct hysteresis_pct s (u ∷ us) =
      run_evaluate spill_pct hysteresis_pct (evaluate u.0 u.1 spill_pct hysteresis_pct s) us

-- `counter` is a uint64.
pub should_spill_this_batch : SpilloverState → SpilloverState × Bool
unfolding level
should_spill_this_batch s =
    if not (level s.mode == 1)
    then (s, leb 2 (level s.mode))
    else let counter = (s.counter + 1) % 2 ^ 64 in
      (record s { counter = counter }, (counter % 2) == 0)

-- How many of `n` batches in a row go to disk.
pub spilled : ℕ → SpilloverState → ℕ
spilled zero s = 0
spilled (suc n) s =
    let (s', spill) = should_spill_this_batch s in (if spill then 1 else 0) + spilled n s'
