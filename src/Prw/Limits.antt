-- ===== src/Prw/Limits.antt =====
-- The limits of remote write of internal/prw/limits.go. A compiled pattern is the function that its MatchString is; a
-- pattern that does not compile is none. The map of the label patterns is a list in some order.
-- A set of hashes is the list of its elements. Counts do not reach 2^63. Calls run under the lock, one
-- after the other, and the clock is an argument, in nanoseconds.
pub mod Rate
pub mod Window
pub mod Cardinality
pub mod Accounted
mod Tests
use metrics_governor.Prelude.{
  ℕ, ◌+◌, ◌*◌, ◌^◌, Bool, true, false, not, ◌&&◌, ◌||◌, List, [], ◌∷◌, Option, none, some, String,
  length, ltb, leb, ◌==◌, if◌then◌else◌,
}
use metrics_governor.Prelude.Eq.{string_eq}
use metrics_governor.Prelude.Map.{Map, lookup, insert}
use metrics_governor.Prw.Proto.Messages.{TimeSeries, WriteRequest}
use metrics_governor.Prw.Series.{
  metric_name, get_label_value, datapoint_count, sort_labels, labels_hash,
}

-- Every action but `log` drops.
pub data LimitAction : Type 0 where
  drops logs : LimitAction

pub record LimitRule : Type 0 where
  pub name : String
  pub metric_regex : Option (List ℕ → Bool)
  pub label_regexes : List (List ℕ × (List ℕ → Bool))
  pub max_datapoints_per_second : ℕ
  pub max_cardinality : ℕ
  pub action : LimitAction

pub record LimitsEnforcer : Type 0 where
  pub rules : List LimitRule
  pub dry_run : Bool
  pub cardinality_map : Map String (List ℕ)
  pub datapoint_counts : Map String ℕ
  pub last_reset : ℕ
  pub total_dropped : ℕ
  pub total_violations : ℕ

unfoldable pub new_limits_enforcer : List LimitRule → Bool → ℕ → LimitsEnforcer
new_limits_enforcer rules dry_run now = record {
  rules = rules;
  dry_run = dry_run;
  cardinality_map = [];
  datapoint_counts = [];
  last_reset = now;
  total_dropped = 0;
  total_violations = 0;
}

unfoldable pub labels_match : TimeSeries → List (List ℕ × (List ℕ → Bool)) → Bool
labels_match ts [] = true
labels_match ts ((label, re) ∷ rest) = re (get_label_value ts label) && labels_match ts rest

unfoldable pub matches_rule : TimeSeries → LimitRule → Bool
matches_rule ts rule = elim rule.metric_regex [
  | none ↦ not (length rule.label_regexes == 0) && labels_match ts rule.label_regexes
  | some re ↦ re (metric_name ts) && labels_match ts rule.label_regexes
]

-- A missing key of the maps.
unfoldable pub count_of : String → Map String ℕ → ℕ
count_of name m = elim (lookup name m) [ none ↦ 0 | some n ↦ n ]

unfoldable pub set_of : String → Map String (List ℕ) → List ℕ
set_of name m = elim (lookup name m) [ none ↦ [] | some s ↦ s ]

unfoldable pub member : ℕ → List ℕ → Bool
member h [] = false
member h (g ∷ gs) = g == h || member h gs

abbrev violated : LimitsEnforcer → LimitsEnforcer
violated e = record e { total_violations = e.total_violations + 1 }

-- The enforcer, the series and whether the rule is violated.
abbrev Checked : Type 0
Checked = LimitsEnforcer × TimeSeries × Bool

unfoldable pub check_cardinality : LimitsEnforcer → LimitRule → TimeSeries → Checked
check_cardinality e rule ts =
    if rule.max_cardinality == 0
    then (e, ts, false)
    else (let ts' = sort_labels ts in
        let hash = labels_hash ts' in
        let seen = set_of rule.name e.cardinality_map in
        if member hash seen
        then (record e { cardinality_map = insert rule.name seen e.cardinality_map }, ts', false)
        else if leb rule.max_cardinality (length seen)
        then (
          violated (record e { cardinality_map = insert rule.name seen e.cardinality_map }),
          ts',
          true,
        )
        else (
          record e { cardinality_map = insert rule.name (hash ∷ seen) e.cardinality_map },
          ts',
          false,
        ))

unfoldable pub check_rule : LimitsEnforcer → LimitRule → TimeSeries → Checked
check_rule e rule ts =
    let count = count_of rule.name e.datapoint_counts in
    if rule.max_datapoints_per_second == 0
    then check_cardinality e rule ts
    else if ltb rule.max_datapoints_per_second (count + datapoint_count ts)
    then (violated e, ts, true)
    else check_cardinality
        (record e {
          datapoint_counts = insert rule.name (count + datapoint_count ts) e.datapoint_counts;
        })
        rule ts

-- The loop over the rules, up to the first that is violated.
unfoldable pub check_rules :
    LimitsEnforcer → List LimitRule → TimeSeries → LimitsEnforcer × TimeSeries × Option LimitRule
check_rules e [] ts = (e, ts, none)
check_rules e (rule ∷ rules) ts =
    if matches_rule ts rule
    then (let r = check_rule e rule ts in
        if r.2 then (r.0, r.1, some rule) else check_rules r.0 rules r.1)
    else check_rules e rules ts

unfoldable pub only_logs : LimitsEnforcer → LimitRule → Bool
only_logs e rule = e.dry_run || elim rule.action [ drops ↦ false | logs ↦ true ]

-- What is done with a series: it is passed on, or not.
unfoldable pub settle :
    LimitsEnforcer × TimeSeries × Option LimitRule → LimitsEnforcer × Option TimeSeries
settle (e, ts, none) = (e, some ts)
settle (e, ts, some rule) =
    if only_logs e rule
    then (e, some ts)
    else (record e { total_dropped = e.total_dropped + 1 }, none)

unfoldable pub offer : LimitsEnforcer → TimeSeries → LimitsEnforcer × Option TimeSeries
offer e ts = settle (check_rules e e.rules ts)

unfoldable pub kept : Option TimeSeries → List TimeSeries → List TimeSeries
kept none tss = tss
kept (some ts) tss = ts ∷ tss

unfoldable pub filter_series : LimitsEnforcer → List TimeSeries → LimitsEnforcer × List TimeSeries
filter_series e [] = (e, [])
filter_series e (ts ∷ tss) =
    let r = offer e ts in let rest = filter_series r.0 tss in (rest.0, kept r.1 rest.1)

-- Counters start again every second.
unfoldable pub reset_counts : LimitsEnforcer → ℕ → LimitsEnforcer
reset_counts e now =
    if leb (e.last_reset + 10 ^ 9) now
    then record e { datapoint_counts = []; last_reset = now }
    else e

-- `Process`, with `none` for nil.
unfoldable pub process :
    LimitsEnforcer → Option WriteRequest → ℕ → LimitsEnforcer × Option WriteRequest
process e none now = (e, none)
process e (some req) now =
    if length e.rules == 0
    then (e, some req)
    else (let r = filter_series (reset_counts e now) req.timeseries in
        (
          r.0,
          if length r.1 == 0
              then none
              else some (record { timeseries = r.1; metadata = req.metadata }),
        ))

unfoldable pub reset_stats : LimitsEnforcer → LimitsEnforcer
reset_stats e = record e { total_dropped = 0; total_violations = 0 }

unfoldable pub reset_cardinality : LimitsEnforcer → LimitsEnforcer
reset_cardinality e = record e { cardinality_map = [] }
