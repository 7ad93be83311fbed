-- ===== src/Queue/Spillover/Laws.antt =====
-- How the spillover mode follows the utilization.
use metrics_governor.Prelude.{
  ℕ, zero, suc, ◌+◌, ◌/◌, ◌%◌, ◌<◌, ◌≡◌, refl, false, List, [], ◌∷◌, Option, none, some,
  if◌then◌else◌, All, arith, ◌∙◌, ap,
}
use metrics_governor.Queue.Spillover.{
  FloatOps, SpilloverMode, memory_only, partial_disk, all_disk, load_shedding, level, lower,
  SpilloverState, target_mode, move_to, evaluate, run_evaluate, should_spill_this_batch, spilled,
}

module _ {F : Type 0} (fl : FloatOps F) (spill_pct hysteresis_pct : ℕ) where
  -- The mode that the utilization alone asks for, outside the band between the recovery threshold
  -- and the first spill threshold.
  unfoldable pub wanted : F → Option SpilloverMode
  wanted u =
      if fl.geb u (fl.add (fl.of_percent spill_pct) fl.lit_0_15)
      then some load_shedding
      else if fl.geb u (fl.add (fl.of_percent spill_pct) fl.lit_0_10)
      then some all_disk
      else if fl.geb u (fl.of_percent spill_pct)
      then some partial_disk
      else if fl.ltb u (fl.of_percent hysteresis_pct)
      then some memory_only
      else none

  evaluate-wanted :
      (now : ℕ) (u : F) (w : SpilloverMode) (s : SpilloverState)
      → wanted u ≡ some w
      → (evaluate fl now u spill_pct hysteresis_pct s).mode ≡ move_to w s.mode
  unfolding evaluate target_mode wanted
  evaluate-wanted now u w s h = ground arith

  move_to-settles : (w m : SpilloverMode) → move_to w (move_to w (move_to w m)) ≡ w
  unfolding move_to level lower
  move_to-settles memory_only memory_only = refl
  move_to-settles memory_only partial_disk = refl
  move_to-settles memory_only all_disk = refl
  move_to-settles memory_only load_shedding = refl
  move_to-settles partial_disk memory_only = refl
  move_to-settles partial_disk partial_disk = refl
  move_to-settles partial_disk all_disk = refl
  move_to-settles partial_disk load_shedding = refl
  move_to-settles all_disk memory_only = refl
  move_to-settles all_disk partial_disk = refl
  move_to-settles all_disk all_disk = refl
  move_to-settles all_disk load_shedding = refl
  move_to-settles load_shedding memory_only = refl
  move_to-settles load_shedding partial_disk = refl
  move_to-settles load_shedding all_disk = refl
  move_to-settles load_shedding load_shedding = refl

  -- Whatever the mode was, after three evaluations at utilizations that each ask for the same mode, that is
  -- the mode. The utilization asks for load shedding, all to disk or partly to disk by the three spill
  -- thresholds and for memory only below the recovery threshold, so that the mode also steps down between
  -- the spill thresholds, at a utilization above the recovery threshold.
  pub run_evaluate_settles :
      (w : SpilloverMode) (u₁ u₂ u₃ : F) (t₁ t₂ t₃ : ℕ) (s : SpilloverState)
      → wanted u₁ ≡ some w
      → wanted u₂ ≡ some w
      → wanted u₃ ≡ some w
      → (run_evaluate fl spill_pct hysteresis_pct s ((t₁, u₁) ∷ (t₂, u₂) ∷ (t₃, u₃) ∷ [])).mode ≡ w
  unfolding run_evaluate
  run_evaluate_settles w u₁ u₂ u₃ t₁ t₂ t₃ s h₁ h₂ h₃ =
      let s₁ = evaluate fl t₁ u₁ spill_pct hysteresis_pct s in
      let s₂ = evaluate fl t₂ u₂ spill_pct hysteresis_pct s₁ in
      evaluate-wanted t₃ u₃ w s₂ h₃
      ∙ ap (λ m. move_to w m) (evaluate-wanted t₂ u₂ w s₁ h₂)
      ∙ ap (λ m. move_to w (move_to w m)) (evaluate-wanted t₁ u₁ w s h₁)
      ∙ move_to-settles w s.mode

  target_mode_active :
      (u : F) (m : SpilloverMode)
      → fl.ltb u (fl.of_percent hysteresis_pct) ≡ false
      → 0 < level m
      → 0 < level (target_mode fl u spill_pct hysteresis_pct m)
  unfolding target_mode level
  target_mode_active u m h p = ground arith

  lower_active : (t m : SpilloverMode) → 0 < level t → level t < level m → 0 < level (lower m)
  unfolding lower level
  lower_active t memory_only p q = omega arith
  lower_active t partial_disk p q = omega arith
  lower_active t all_disk p q = omega arith
  lower_active t load_shedding p q = omega arith

  move_to_active : (t m : SpilloverMode) → 0 < level t → 0 < level m → 0 < level (move_to t m)
  unfolding move_to
  move_to_active t m p q = ground (arith, lower_active t m)

  evaluate_stays_active :
      (now : ℕ) (u : F) (s : SpilloverState)
      → fl.ltb u (fl.of_percent hysteresis_pct) ≡ false
      → 0 < level s.mode
      → 0 < level (evaluate fl now u spill_pct hysteresis_pct s).mode
  unfolding evaluate
  evaluate_stays_active now u s h p =
      move_to_active (target_mode fl u spill_pct hysteresis_pct s.mode) s.mode
        (target_mode_active u s.mode h p) p

  -- Spillover that has begun goes on as long as no utilization is below the recovery threshold.
  run_evaluate_stays_active :
      (s : SpilloverState) (us : List (ℕ × F))
      → All (λ u. fl.ltb u.1 (fl.of_percent hysteresis_pct) ≡ false) us
      → 0 < level s.mode
      → 0 < level (run_evaluate fl spill_pct hysteresis_pct s us).mode
  unfolding run_evaluate
  run_evaluate_stays_active s [] hs p = p
  run_evaluate_stays_active s (u ∷ us) hs p =
      run_evaluate_stays_active (evaluate fl u.0 u.1 spill_pct hysteresis_pct s) us hs.1
        (evaluate_stays_active u.0 u.1 s hs.0 p)

-- In the mode partial_disk the batches alternate: of `n` in a row half go to disk, where an odd batch
-- out goes to disk exactly if the counter was odd.
spilled_partial :
    (n : ℕ) (s : SpilloverState) → s.mode ≡ partial_disk → spilled n s ≡ (n + s.counter % 2) / 2
unfolding spilled should_spill_this_batch level
spilled_partial zero s h = ground arith
spilled_partial (suc n) s h = ground (arith, spilled_partial n (should_spill_this_batch s).0)
