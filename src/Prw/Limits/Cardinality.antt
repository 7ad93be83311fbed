-- ===== src/Prw/Limits/Cardinality.antt =====
-- The sets of hashes that the cardinality limits keep.
use metrics_governor.Prelude.{
  ℕ, ◌≤◌, ◌≡◌, refl, sym, subst, Bool, List, [], ◌∷◌, Option, none, some, String, length, All,
  arith, if◌then◌else◌,
}
use metrics_governor.Prelude.Eq.{string_eq}
use metrics_governor.Prelude.Map.{Map, insert, lookup-insert}
use metrics_governor.Prw.Proto.Messages.{TimeSeries, WriteRequest}
use metrics_governor.Prw.Limits.{
  LimitRule, LimitsEnforcer, new_limits_enforcer, check_cardinality, check_rule, check_rules,
  settle, offer, filter_series, reset_counts, reset_stats, reset_cardinality, process, set_of,
}
use metrics_governor.Prw.Limits.Accounted.{offer-IsAccounted, filter_series-IsAccounted}

abbrev pub IsLimitOf : String → ℕ → List LimitRule → Type 0
IsLimitOf n most rules = All (λ r. r.name ≡ n → r.max_cardinality ≤ most) rules

abbrev IsSmall : String → ℕ → LimitsEnforcer → Type 0
IsSmall n most e = length (set_of n e.cardinality_map) ≤ most

set_of-insert :
    (k n : String) (v : List ℕ) (m : Map String (List ℕ))
    → set_of n (insert k v m) ≡ (if string_eq.beq k n then v else set_of n m)
unfolding set_of
set_of-insert k n v m = ground (arith, lookup-insert k n v m)

check_cardinality-IsSmall :
    (n : String) (most : ℕ) (e : LimitsEnforcer) (rule : LimitRule) (ts : TimeSeries)
    → (rule.name ≡ n → rule.max_cardinality ≤ most)
    → IsSmall n most e
    → IsSmall n most (check_cardinality e rule ts).0
unfolding check_cardinality
check_cardinality-IsSmall n most e rule ts l s = grind (
  arith,
  string_eq.beq_iff rule.name n,
  λ (v : List ℕ). set_of-insert rule.name n v e.cardinality_map,
)

check_rule-IsSmall :
    (n : String) (most : ℕ) (e : LimitsEnforcer) (rule : LimitRule) (ts : TimeSeries)
    → (rule.name ≡ n → rule.max_cardinality ≤ most)
    → IsSmall n most e
    → IsSmall n most (check_rule e rule ts).0
unfolding check_rule
check_rule-IsSmall n most e rule ts l s =
    grind (arith, λ (x : LimitsEnforcer). check_cardinality-IsSmall n most x rule ts l)

check_rules-IsSmall :
    (n : String) (most : ℕ) (e : LimitsEnforcer) (rules : List LimitRule) (ts : TimeSeries)
    → IsLimitOf n most rules
    → IsSmall n most e
    → IsSmall n most (check_rules e rules ts).0
unfolding check_rules
check_rules-IsSmall n most e [] ts l s = s
check_rules-IsSmall n most e (x ∷ rules) ts l s =
    let r = check_rule e x ts in
    let c = check_rule-IsSmall n most e x ts l.0 s in
    ground (
      arith,
      check_rules-IsSmall n most r.0 rules r.1 l.1 c,
      check_rules-IsSmall n most e rules ts l.1 s,
      c,
    )

settle-same :
    (e : LimitsEnforcer) (ts : TimeSeries) (o : Option LimitRule)
    → (settle (e, ts, o)).0.cardinality_map ≡ e.cardinality_map
unfolding settle
settle-same e ts none = refl
settle-same e ts (some r) = ground arith

offer-IsSmall :
    (n : String) (most : ℕ) (e : LimitsEnforcer) (ts : TimeSeries)
    → IsLimitOf n most e.rules
    → IsSmall n most e
    → IsSmall n most (offer e ts).0
unfolding offer
offer-IsSmall n most e ts l s =
    let c = check_rules e e.rules ts in
    subst (λ m. length (set_of n m) ≤ most) (sym (settle-same c.0 c.1 c.2))
      (check_rules-IsSmall n most e e.rules ts l s)

filter_series-IsSmall :
    (n : String) (most : ℕ) (e : LimitsEnforcer) (tss : List TimeSeries)
    → IsLimitOf n most e.rules
    → IsSmall n most e
    → IsSmall n most (filter_series e tss).0
unfolding filter_series
filter_series-IsSmall n most e [] l s = s
filter_series-IsSmall n most e (ts ∷ tss) l s =
    filter_series-IsSmall n most (offer e ts).0 tss
      (subst (IsLimitOf n most) (sym (offer-IsAccounted e ts).0) l) (offer-IsSmall n most e ts l s)

empty_IsSmall : (n : String) (most : ℕ) → length (set_of n []) ≤ most
unfolding set_of
empty_IsSmall n most = omega arith

pub data Call : Type 0 where
  processes : Option WriteRequest → ℕ → Call
  resets_stats resets_cardinality : Call

unfoldable pub run : LimitsEnforcer → List Call → LimitsEnforcer
run e [] = e
run e (processes req now ∷ cs) = run (process e req now).0 cs
run e (resets_stats ∷ cs) = run (reset_stats e) cs
run e (resets_cardinality ∷ cs) = run (reset_cardinality e) cs

process-IsSmall :
    (n : String) (most : ℕ) (e : LimitsEnforcer) (req : Option WriteRequest) (now : ℕ)
    → IsLimitOf n most e.rules
    → IsSmall n most e
    → (IsSmall n most (process e req now).0) × ((process e req now).0.rules ≡ e.rules)
unfolding process reset_counts
process-IsSmall n most e none now l s = (s, refl)
process-IsSmall n most e (some req) now l s =
    let e' = reset_counts e now in
    ground (
      arith,
      filter_series-IsSmall n most e' req.timeseries,
      (filter_series-IsAccounted e' req.timeseries).0,
    )

run-IsSmall :
    (n : String) (most : ℕ) (e : LimitsEnforcer) (cs : List Call)
    → IsLimitOf n most e.rules
    → IsSmall n most e
    → IsSmall n most (run e cs)
unfolding run reset_stats reset_cardinality
run-IsSmall n most e [] l s = s
run-IsSmall n most e (processes req now ∷ cs) l s =
    let p = process-IsSmall n most e req now l s in
    run-IsSmall n most (process e req now).0 cs (subst (IsLimitOf n most) (sym p.1) l) p.0
run-IsSmall n most e (resets_stats ∷ cs) l s = run-IsSmall n most (reset_stats e) cs l s
run-IsSmall n most e (resets_cardinality ∷ cs) l s =
    run-IsSmall n most (reset_cardinality e) cs l (empty_IsSmall n most)

-- Through every sequence of requests and resets, a new enforcer keeps for the rules of one name at most as
-- many hashes of series as the largest cardinality limit of these rules, or any number above it.
run_limits-IsSmall :
    (n : String) (most : ℕ) (rules : List LimitRule) (dry_run : Bool) (now : ℕ) (cs : List Call)
    → IsLimitOf n most rules
    → length (set_of n (run (new_limits_enforcer rules dry_run now) cs).cardinality_map) ≤ most
unfolding new_limits_enforcer set_of
run_limits-IsSmall n most rules dry_run now cs l =
    run-IsSmall n most (new_limits_enforcer rules dry_run now) cs l (omega arith)
