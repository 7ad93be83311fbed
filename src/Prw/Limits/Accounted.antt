-- ===== src/Prw/Limits/Accounted.antt =====
-- The accounting of the series in LimitsEnforcer of internal/prw/limits.go.
use metrics_governor.Prelude.{
  ℕ, ◌+◌, ◌≤◌, ◌≡◌, true, List, [], ◌∷◌, Option, none, some, length, arith, if◌then◌else◌,
}
use metrics_governor.Prw.Proto.Messages.{TimeSeries, WriteRequest}
use metrics_governor.Prw.Limits.{
  LimitRule, LimitsEnforcer, check_cardinality, check_rule, check_rules, only_logs, settle, offer,
  kept, filter_series, reset_counts, process,
}

-- What the checks leave as it is.
abbrev pub IsSame : LimitsEnforcer → LimitsEnforcer → Type 0
IsSame e e' =
    (e'.rules ≡ e.rules)
    × (e'.dry_run ≡ e.dry_run)
    × (e'.last_reset ≡ e.last_reset)
    × (e'.total_dropped ≡ e.total_dropped)

-- A violation is counted where there is one.
check_rule-counts :
    (e : LimitsEnforcer) (rule : LimitRule) (ts : TimeSeries)
    → (let r = check_rule e rule ts in
        IsSame e r.0 × (r.0.total_violations ≡ e.total_violations + (if r.2 then 1 else 0)))
unfolding check_rule check_cardinality
check_rule-counts e rule ts = ground arith

pub violations_of : {A : Type 0} → Option A → ℕ
violations_of none = 0
violations_of (some a) = 1

pub check_rules-counts :
    (e : LimitsEnforcer) (rules : List LimitRule) (ts : TimeSeries)
    → (let r = check_rules e rules ts in
        IsSame e r.0 × (r.0.total_violations ≡ e.total_violations + violations_of r.2))
unfolding check_rules violations_of
check_rules-counts e [] ts = ground arith
check_rules-counts e (rule ∷ rules) ts =
    let c = check_rule-counts e rule ts in
    ground (
      arith,
      c,
      check_rules-counts (check_rule e rule ts).0 rules (check_rule e rule ts).1,
      check_rules-counts e rules ts,
    )

-- What is the same after a series was offered, and the counts.
abbrev pub IsAccounted : LimitsEnforcer → LimitsEnforcer → ℕ → ℕ → Type 0
IsAccounted e e' passed offered =
    (e'.rules ≡ e.rules)
    × (e'.dry_run ≡ e.dry_run)
    × (e'.last_reset ≡ e.last_reset)
    × (e'.total_dropped + passed ≡ e.total_dropped + offered)
    × (e'.total_dropped + e.total_violations ≤ e'.total_violations + e.total_dropped)
    × (e.dry_run ≡ true → e'.total_dropped ≡ e.total_dropped)

settle-IsAccounted :
    (e e' : LimitsEnforcer) (ts : TimeSeries) (o : Option LimitRule)
    → IsSame e e'
    → e'.total_violations ≡ e.total_violations + violations_of o
    → IsAccounted e (settle (e', ts, o)).0 (length (kept (settle (e', ts, o)).1 [])) 1
unfolding settle only_logs kept violations_of
settle-IsAccounted e e' ts none s v = ground arith
settle-IsAccounted e e' ts (some rule) s v = ground arith

pub offer-IsAccounted :
    (e : LimitsEnforcer) (ts : TimeSeries)
    → IsAccounted e (offer e ts).0 (length (kept (offer e ts).1 [])) 1
unfolding offer
offer-IsAccounted e ts =
    let c = check_rules-counts e e.rules ts in
    let r = check_rules e e.rules ts in settle-IsAccounted e r.0 r.1 r.2 c.0 c.1

length-kept :
    (o : Option TimeSeries) (tss : List TimeSeries)
    → length (kept o tss) ≡ length (kept o []) + length tss
unfolding kept
length-kept none tss = omega arith
length-kept (some ts) tss = omega arith

pub filter_series-IsAccounted :
    (e : LimitsEnforcer) (tss : List TimeSeries)
    → IsAccounted e (filter_series e tss).0 (length (filter_series e tss).1) (length tss)
unfolding filter_series
filter_series-IsAccounted e [] = ground arith
filter_series-IsAccounted e (ts ∷ tss) =
    let r = offer e ts in
    let f = filter_series-IsAccounted r.0 tss in
    let o = offer-IsAccounted e ts in
    ground (arith, o, f, length-kept r.1 (filter_series r.0 tss).1)

-- The series of a result.
unfoldable pub series_of : Option WriteRequest → List TimeSeries
series_of none = []
series_of (some req) = req.timeseries

-- Every series of a request that is processed is passed on or counted as dropped, a drop is counted as a
-- violation too, and in a dry run none is dropped.
pub process-accounted :
    (e : LimitsEnforcer) (req : WriteRequest) (now : ℕ)
    → (let r = process e (some req) now in
        (r.0.total_dropped + length (series_of r.1) ≡ e.total_dropped + length req.timeseries)
        × (r.0.total_dropped + e.total_violations ≤ r.0.total_violations + e.total_dropped)
        × (e.dry_run ≡ true → r.0.total_dropped ≡ e.total_dropped))
unfolding process series_of reset_counts
process-accounted e req now =
    ground (arith, filter_series-IsAccounted (reset_counts e now) req.timeseries)
