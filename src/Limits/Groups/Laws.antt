-- ===== src/Limits/Groups/Laws.antt =====
-- The totals of a rule, and what the adaptive action does with them.
use metrics_governor.Prelude.{
  ℕ, ◌≤◌, ◌<◌, ◌≡◌, refl, sym, ap, subst, ◌∙◌, Bool, true, List, [], ◌∷◌, Option, none, some,
  String, arith,
}
use metrics_governor.Prelude.Eq.{string_eq}
use metrics_governor.Prelude.Map.{lookup}
use metrics_governor.Limits.Tracker.{Tracker, IsKeySet}
use metrics_governor.Limits.Groups.{
  Rule, GroupStats, RuleStats, RuleState, Reason, by_cardinality, by_datapoints_rate, fresh,
  stats_or_fresh, open_window, count_new, add_keys, check_group, update_in, update_and_check_limits,
  excess_of, adapt, adapt_at, handle_adaptive, group_or_new,
}

abbrev IsWithin : {T : Type 0} → Rule → RuleStats T → Type 0
IsWithin rule rs =
    (0 < rule.max_datapoints_rate → rs.total_dps ≤ rule.max_datapoints_rate)
    × (0 < rule.max_cardinality → rs.total_card ≤ rule.max_cardinality)

abbrev pub IsWithinAt : {T : Type 0} → Rule → Option (RuleStats T) → Type 0
IsWithinAt rule none = Unit
IsWithinAt rule (some rs) = IsWithin rule rs

module _ {T : Type 0} (tr : Tracker T) (set : IsKeySet tr) where
  stats_or_fresh-IsWithin :
      (rule : Rule) (o : Option (RuleStats T)) (now : ℕ)
      → IsWithinAt rule o
      → IsWithin rule (stats_or_fresh tr now o)
  unfolding stats_or_fresh fresh
  stats_or_fresh-IsWithin rule none now w = ground arith
  stats_or_fresh-IsWithin rule (some rs) now w = w

  count_new_grows :
      (t u : T) (keys : List String)
      → ((k : String) → tr.test_only t k ≡ true → tr.test_only u k ≡ true)
      → count_new tr u keys ≤ count_new tr t keys
  unfolding count_new
  count_new_grows t u [] h = omega arith
  count_new_grows t u (k ∷ keys) h = ground (arith, h k, count_new_grows t u keys h)

  -- What is added is at most what was found to be new.
  add_keys-count_new : (t : T) (keys : List String) → (add_keys tr t keys).1 ≤ count_new tr t keys
  unfolding add_keys count_new
  add_keys-count_new t [] = omega arith
  add_keys-count_new t (k ∷ keys) = ground (
    arith,
    set.add_known t k,
    add_keys-count_new (tr.add t k).0 keys,
    count_new_grows t (tr.add t k).0 keys (λ j h. set.add_keeps t j k h),
  )

  check_group-IsWithin :
      (rule : Rule) (rs : RuleStats T) (g : String) (gs : GroupStats T) (n : ℕ) (keys : List String)
      → IsWithin rule rs
      → IsWithin rule (check_group tr rule rs g gs n keys).0
  unfolding check_group
  check_group-IsWithin rule rs g gs n keys w =
      ground (arith, add_keys-count_new gs.cardinality keys)

  update_in-IsWithin :
      (rule : Rule) (rs : RuleStats T) (g : String) (n : ℕ) (keys : List String)
      → IsWithin rule rs
      → IsWithin rule (update_in tr rule rs g n keys).0
  unfolding update_in
  update_in-IsWithin rule rs g n keys w =
      ground (arith, check_group-IsWithin rule rs g (group_or_new tr (lookup g rs.groups)) n keys w)

  open_window-IsWithin :
      (rule : Rule) (s : RuleState T) (now : ℕ)
      → IsWithinAt rule s.stats
      → IsWithin rule (open_window tr s now).0
  unfolding open_window fresh
  open_window-IsWithin rule s now w = ground (arith, stats_or_fresh-IsWithin rule s.stats now w)

  adapt-within :
      (rule : Rule) (s : RuleState T) (rs : RuleStats T) (g : String) (reason : Reason)
      → IsWithin rule rs
      → adapt tr rule s rs g reason ≡ (s, true)
  unfolding adapt excess_of
  adapt-within rule s rs g by_cardinality w = ground arith
  adapt-within rule s rs g by_datapoints_rate w = ground arith

  handle_adaptive-within :
      (rule : Rule) (s : RuleState T) (o : Option (RuleStats T)) (g : String) (reason : Reason)
      → s.stats ≡ o
      → IsWithinAt rule o
      → handle_adaptive tr rule s g reason ≡ (s, true)
  unfolding handle_adaptive
  handle_adaptive-within rule s none g reason p w = ap (λ o. adapt_at tr rule s o g reason) p
  handle_adaptive-within rule s (some rs) g reason p w =
      ap (λ o. adapt_at tr rule s o g reason) p ∙ adapt-within rule s rs g reason w

-- A call of updateAndCheckLimits, and of handleAdaptive.
pub data Call : Type 0 where
  updates : ℕ → String → ℕ → List String → Call
  adapts : String → Reason → Call

abbrev pub new_state : {T : Type 0} → RuleState T
new_state = record { stats = none; dropped = none }

module _ {T : Type 0} (tr : Tracker T) (rule : Rule) where
  unfoldable pub step : RuleState T → Call → RuleState T
  step s (updates now g n keys) = (update_and_check_limits tr rule s now g n keys).0
  step s (adapts g reason) = (handle_adaptive tr rule s g reason).0

  unfoldable pub run : RuleState T → List Call → RuleState T
  run s [] = s
  run s (c ∷ cs) = run (step s c) cs

module _ {T : Type 0} (tr : Tracker T) (set : IsKeySet tr) (rule : Rule) where
  step-IsWithin :
      (s : RuleState T) (c : Call)
      → IsWithinAt rule s.stats
      → IsWithinAt rule (step tr rule s c).stats
  unfolding step update_and_check_limits
  step-IsWithin s (updates now g n keys) w =
      update_in-IsWithin tr set rule (open_window tr s now).0 g n keys
        (open_window-IsWithin tr set rule s now w)
  step-IsWithin s (adapts g reason) w =
      subst (λ (r : RuleState T × Bool). IsWithinAt rule r.0.stats)
        (sym (handle_adaptive-within tr set rule s s.stats g reason refl w)) w

  run-IsWithin :
      (s : RuleState T) (cs : List Call)
      → IsWithinAt rule s.stats
      → IsWithinAt rule (run tr rule s cs).stats
  unfolding run
  run-IsWithin s [] w = w
  run-IsWithin s (c ∷ cs) w = run-IsWithin (step tr rule s c) cs (step-IsWithin s c w)

  -- With a tracker that stays a set of keys, through every sequence of calls of updateAndCheckLimits and
  -- handleAdaptive for one rule, whose limits stay as they are, the totals of the window do not exceed the
  -- limits that are set.
  run_groups-IsWithin : (cs : List Call) → IsWithinAt rule (run tr rule new_state cs).stats
  run_groups-IsWithin cs = run-IsWithin new_state cs tt

  -- With a tracker that stays a set of keys, where a key that is found is not new when it is added and is found
  -- from then on: after every sequence of calls of updateAndCheckLimits and handleAdaptive for one rule,
  -- whose limits stay as they are, a call of handleAdaptive passes the metric on and marks no group, for
  -- every group key and for both reasons.
  pub handle_adaptive_passes :
      (cs : List Call) (g : String) (reason : Reason)
      → handle_adaptive tr rule (run tr rule new_state cs) g reason
        ≡ (run tr rule new_state cs, true)
  handle_adaptive_passes cs g reason =
      let s = run tr rule new_state cs in
      handle_adaptive-within tr set rule s s.stats g reason refl (run_groups-IsWithin cs)
