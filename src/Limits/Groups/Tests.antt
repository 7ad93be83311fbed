-- ===== src/Limits/Groups/Tests.antt =====
-- A rule of ten data points and two series.
use metrics_governor.Prelude.{◌≡◌, refl, true, List, [], ◌∷◌, some}
use metrics_governor.Limits.Tracker.{exact_tracker, exact_tracker-IsKeySet, has}
use metrics_governor.Limits.Groups.{
  Rule, by_cardinality, by_datapoints_rate, update_and_check_limits, handle_adaptive, open_window,
  stats_or_fresh, fresh, update_in, is_missing, check_group, group_or_new, count_new, add_keys,
}
use metrics_governor.Limits.Groups.Laws.{
  Call, updates, adapts, run, new_state, handle_adaptive_passes,
}

abbrev rule : Rule
rule = record { max_datapoints_rate = 10; max_cardinality = 2 }

abbrev calls : List Call
calls =
    updates 0 "g" 6 ("a" ∷ "b" ∷ "a" ∷ [])
    ∷ updates 1 "g" 6 ("a" ∷ [])
    ∷ adapts "g" by_datapoints_rate
    ∷ updates 2 "h" 1 ("c" ∷ [])
    ∷ []

-- The keys `a`, `b` and `a` count as two new series at first, since `a` is counted twice: three are above the limit.
exceeds_cardinality :
    (update_and_check_limits exact_tracker rule new_state 0 "g" 6 ("a" ∷ "b" ∷ "a" ∷ [])).1
    ≡ some by_cardinality
unfolding update_and_check_limits open_window stats_or_fresh fresh update_in is_missing check_group
    group_or_new count_new add_keys has
exceeds_cardinality = refl

handle_adaptive_passes_example :
    handle_adaptive exact_tracker rule
      (run exact_tracker rule new_state calls)
      "g"
      by_datapoints_rate
    ≡ (run exact_tracker rule new_state calls, true)
handle_adaptive_passes_example =
    handle_adaptive_passes exact_tracker exact_tracker-IsKeySet rule calls "g" by_datapoints_rate
