-- ===== src/Limits/Groups.antt =====
-- The windows of a rule of internal/limits/enforcer.go: updateAndCheckLimits and handleAdaptive, for a rule without adaptive
-- priorities. The maps of the enforcer are keyed by the name of the rule, so the state here is the entries of one rule;
-- the removal of expired entries of other rules is a step of theirs. A call has the clock in nanoseconds, the
-- key of the group, the number of data points of the metric and the keys of their series. Numbers do not
-- reach 2^63, and limits that are not positive are passed as 0. Logs and counters for reports are left out.
pub mod Laws
mod Tests
use metrics_governor.Prelude.{
  ℕ, zero, suc, ◌+◌, ◌-◌, ◌*◌, ◌^◌, Bool, true, false, not, ◌&&◌, ◌||◌, List, [], ◌∷◌, Option, none,
  some, String, length, ltb, leb, ◌==◌, if◌then◌else◌,
}
use metrics_governor.Prelude.Eq.{string_eq}
use metrics_governor.Prelude.Map.{Map, lookup, insert, delete}
use metrics_governor.Limits.Tracker.{Tracker}

pub record Rule : Type 0 where
  pub max_datapoints_rate : ℕ
  pub max_cardinality : ℕ

pub record GroupStats (T : Type 0) : Type 0 where
  pub datapoints : ℕ
  pub cardinality : T

pub record RuleStats (T : Type 0) : Type 0 where
  pub groups : Map String (GroupStats T)
  pub total_dps : ℕ
  pub total_card : ℕ
  pub window_end : ℕ

-- The entries of the rule in `ruleStats` and in `droppedGroups`.
pub record RuleState (T : Type 0) : Type 0 where
  pub stats : Option (RuleStats T)
  pub dropped : Option (Map String ℕ)

pub data Reason : Type 0 where
  by_cardinality by_datapoints_rate : Reason

abbrev pub max_groups_per_rule : ℕ
max_groups_per_rule = 100000

abbrev pub minute : ℕ
minute = 60 * 10 ^ 9

module _ {T : Type 0} (tr : Tracker T) where
  unfoldable pub fresh : ℕ → RuleStats T
  fresh now = record { groups = []; total_dps = 0; total_card = 0; window_end = now + minute }

  unfoldable pub stats_or_fresh : ℕ → Option (RuleStats T) → RuleStats T
  stats_or_fresh now none = fresh now
  stats_or_fresh now (some rs) = rs

  -- The statistics, made or begun again where the window has ended, and the dropped groups.
  unfoldable pub open_window : RuleState T → ℕ → RuleStats T × Option (Map String ℕ)
  open_window s now =
      let rs = stats_or_fresh now s.stats in
      if ltb rs.window_end now then (fresh now, none) else (rs, s.dropped)

  unfoldable pub group_or_new : Option (GroupStats T) → GroupStats T
  group_or_new none = record { datapoints = 0; cardinality = tr.new_tracker }
  group_or_new (some gs) = gs

  unfoldable pub is_missing : Option (GroupStats T) → Bool
  is_missing none = true
  is_missing (some gs) = false

  -- `newSeries`
  unfoldable pub count_new : T → List String → ℕ
  count_new t [] = 0
  count_new t (k ∷ keys) = (if tr.test_only t k then 0 else 1) + count_new t keys

  -- The tracker after the keys were added, and how many were new.
  unfoldable pub add_keys : T → List String → T × ℕ
  add_keys t [] = (t, 0)
  add_keys t (k ∷ keys) =
      let a = tr.add t k in
      let rest = add_keys a.0 keys in (rest.0, (if a.1 then 1 else 0) + rest.1)

  -- `exceededDP` and `exceededCard`.
  abbrev over : ℕ → ℕ → Bool
  over total most = ltb 0 most && ltb most total

  unfoldable pub check_group :
      Rule → RuleStats T → String → GroupStats T → ℕ → List String → RuleStats T × Option Reason
  check_group rule rs group_key gs datapoints keys =
      if over (rs.total_card + count_new gs.cardinality keys) rule.max_cardinality
      then (record rs { groups = insert group_key gs rs.groups }, some by_cardinality)
      else if over (rs.total_dps + datapoints) rule.max_datapoints_rate
      then (record rs { groups = insert group_key gs rs.groups }, some by_datapoints_rate)
      else (let a = add_keys gs.cardinality keys in
          (
            record rs {
              groups =
                  insert group_key
                    (record { datapoints = gs.datapoints + datapoints; cardinality = a.0 })
                    rs.groups;
              total_dps = rs.total_dps + datapoints;
              total_card = rs.total_card + a.1;
            },
            none,
          ))

  unfoldable pub update_in :
      Rule → RuleStats T → String → ℕ → List String → RuleStats T × Option Reason
  update_in rule rs group_key datapoints keys =
      if is_missing (lookup group_key rs.groups) && leb max_groups_per_rule (length rs.groups)
      then (rs, none)
      else check_group rule rs group_key (group_or_new (lookup group_key rs.groups)) datapoints keys

  -- `updateAndCheckLimits`, with the reason where a limit is exceeded.
  unfoldable pub update_and_check_limits :
      Rule → RuleState T → ℕ → String → ℕ → List String → RuleState T × Option Reason
  update_and_check_limits rule s now group_key datapoints keys =
      let w = open_window s now in
      let r = update_in rule w.0 group_key datapoints keys in
      (record { stats = some r.0; dropped = w.1 }, r.1)

  -- What a group contributes to the limit that is exceeded.
  unfoldable pub contribution : Reason → GroupStats T → ℕ
  contribution by_cardinality gs = tr.count gs.cardinality
  contribution by_datapoints_rate gs = gs.datapoints

  unfoldable pub insert_contrib : String × ℕ → List (String × ℕ) → List (String × ℕ)
  insert_contrib c [] = c ∷ []
  insert_contrib c (d ∷ ds) = if ltb c.1 d.1 then d ∷ insert_contrib c ds else c ∷ d ∷ ds

  -- The groups by falling contribution; the source leaves the order of equal ones open.
  unfoldable pub contribs : Reason → Map String (GroupStats T) → List (String × ℕ)
  contribs reason [] = []
  contribs reason ((k, gs) ∷ groups) =
      insert_contrib (k, contribution reason gs) (contribs reason groups)

  -- The loop that marks groups until enough is taken away.
  unfoldable pub mark : ℕ → ℕ → ℕ → List (String × ℕ) → Map String ℕ → Map String ℕ
  mark window_end excess reduced [] dropped = dropped
  mark window_end excess reduced (c ∷ cs) dropped =
      let rest = mark window_end excess (reduced + c.1) cs (insert c.0 window_end dropped) in
      if leb excess reduced then dropped else rest

  unfoldable pub excess_of : Rule → Reason → RuleStats T → ℕ
  excess_of rule by_cardinality rs =
      if ltb 0 rule.max_cardinality
      then rs.total_card - rule.max_cardinality
      else if ltb 0 rule.max_datapoints_rate
      then rs.total_dps - rule.max_datapoints_rate
      else 0
  excess_of rule by_datapoints_rate rs =
      if ltb 0 rule.max_datapoints_rate then rs.total_dps - rule.max_datapoints_rate else 0

  unfoldable pub or_empty : Option (Map String ℕ) → Map String ℕ
  or_empty none = []
  or_empty (some m) = m

  unfoldable pub is_marked : Option ℕ → Bool
  is_marked none = false
  is_marked (some expiry) = true

  unfoldable pub adapt : Rule → RuleState T → RuleStats T → String → Reason → RuleState T × Bool
  adapt rule s rs group_key reason =
      let excess = excess_of rule reason rs in
      if excess == 0
      then (s, true)
      else (let marked =
            mark rs.window_end excess 0 (contribs reason rs.groups) (or_empty s.dropped) in
          (record s { dropped = some marked }, not (is_marked (lookup group_key marked))))

  unfoldable pub adapt_at :
      Rule → RuleState T → Option (RuleStats T) → String → Reason → RuleState T × Bool
  adapt_at rule s none group_key reason = (s, true)
  adapt_at rule s (some rs) group_key reason = adapt rule s rs group_key reason

  -- `handleAdaptive`, and whether the metric is passed on where there is no dry run.
  unfoldable pub handle_adaptive : Rule → RuleState T → String → Reason → RuleState T × Bool
  unfolding adapt_at
  handle_adaptive rule s group_key reason = adapt_at rule s s.stats group_key reason
