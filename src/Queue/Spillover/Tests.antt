-- ===== src/Queue/Spillover/Tests.antt =====
-- The spillover with utilizations in whole percent as the numbers.
use metrics_governor.Prelude.{ℕ, ◌+◌, ◌≡◌, refl, [], ◌∷◌, some, leb, ltb}
use metrics_governor.Queue.Spillover.{
  FloatOps, SpilloverState, partial_disk, all_disk, load_shedding, level, run_evaluate, evaluate,
  target_mode, move_to, lower,
}
use metrics_governor.Queue.Spillover.Laws.{wanted, run_evaluate_settles}

abbrev percents : FloatOps ℕ
percents = record {
  of_percent = λ n. n;
  add = λ a b. a + b;
  geb = λ a b. leb b a;
  ltb = ltb;
  lit_0_10 = 10;
  lit_0_15 = 15;
}

abbrev shedding : SpilloverState
shedding = record { mode = load_shedding; counter = 0; start_time = some 5 }

abbrev partial : SpilloverState
partial = record { mode = partial_disk; counter = 3; start_time = some 5 }

down_one_level : (evaluate percents 9 82 80 70 shedding).mode ≡ all_disk
unfolding evaluate target_mode move_to level lower
down_one_level = refl

run_evaluate_settles_example :
    (run_evaluate percents 80 70 shedding ((6, 82) ∷ (7, 83) ∷ (8, 84) ∷ [])).mode ≡ partial_disk
unfolding wanted
run_evaluate_settles_example =
    run_evaluate_settles percents 80 70 partial_disk 82 83 84 6 7 8 shedding refl refl refl
