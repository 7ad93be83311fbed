-- ===== src/Prw/Limits/Window.antt =====
-- What a rule lets through between two resets of the counters.
use metrics_governor.Prelude.{
  ℕ, ◌+◌, ◌^◌, ◌≤◌, ◌<◌, ◌≡◌, refl, sym, ap, subst, ◌∙◌, ◌⊎◌, inl, inr, Bool, true, false, List, [],
  ◌∷◌, Option, none, some, String, length, All, arith, if◌then◌else◌,
}
use metrics_governor.Prw.Proto.Messages.{TimeSeries, WriteRequest}
use metrics_governor.Prw.Series.{datapoint_count, sort_labels}
use metrics_governor.Prw.Limits.{
  LimitRule, drops, LimitsEnforcer, check_rule, check_rules, only_logs, settle, offer,
  filter_series, reset_counts, process, matches_rule, count_of,
}
use metrics_governor.Prw.Limits.Accounted.{
  check_rules-counts, offer-IsAccounted, filter_series-IsAccounted,
}
use metrics_governor.Prw.Limits.Rate.{check_rule_lem, matches_rule-sort_labels, IsCounted}

abbrev pub Among : {A : Type 0} → A → List A → Type 0
Among x [] = ⊥
Among x (y ∷ ys) = (y ≡ x) ⊎ Among x ys

check_rules-grows :
    (e : LimitsEnforcer) (rules : List LimitRule) (ts : TimeSeries) (n : String)
    → count_of n e.datapoint_counts ≤ count_of n (check_rules e rules ts).0.datapoint_counts
unfolding check_rules
check_rules-grows e [] ts n = omega arith
check_rules-grows e (x ∷ rules) ts n =
    let r = check_rule e x ts in
    ground (
      arith,
      (check_rule_lem e x ts n).1,
      check_rules-grows r.0 rules r.1 n,
      check_rules-grows e rules ts n,
    )

-- The series after a check, for a later rule.
same_points :
    (ts ts' : TimeSeries)
    → (ts' ≡ ts) ⊎ (ts' ≡ sort_labels ts)
    → datapoint_count ts' ≡ datapoint_count ts
same_points ts ts' (inl p) = ap (λ (t : TimeSeries). datapoint_count t) p
same_points ts ts' (inr p) = ap (λ (t : TimeSeries). datapoint_count t) p

same_match :
    (ts ts' : TimeSeries) (rule : LimitRule)
    → (ts' ≡ ts) ⊎ (ts' ≡ sort_labels ts)
    → matches_rule ts' rule ≡ matches_rule ts rule
same_match ts ts' rule (inl p) = ap (λ t. matches_rule t rule) p
same_match ts ts' rule (inr p) = ap (λ t. matches_rule t rule) p ∙ matches_rule-sort_labels ts rule

check_rules-IsCounted :
    (e : LimitsEnforcer) (rules : List LimitRule) (ts : TimeSeries) (rule : LimitRule)
    → Among rule rules
    → matches_rule ts rule ≡ true
    → 0 < rule.max_datapoints_per_second
    → (check_rules e rules ts).2 ≡ none
    → IsCounted e rule ts (check_rules e rules ts).0
unfolding check_rules
check_rules-IsCounted e [] ts rule a m p h = absurd a
check_rules-IsCounted e (x ∷ rules) ts rule (inl q) m p h =
    let r = check_rule e x ts in
    let l = check_rule_lem e x ts rule.name in
    let c =
      subst
        (λ y.
          0 < y.max_datapoints_per_second → (check_rule e x ts).2 ≡ false → IsCounted e y ts r.0)
        q l.2 in
    let mx = ap (matches_rule ts) q ∙ m in
    ground (arith, c, mx, check_rules-grows r.0 rules r.1 rule.name)
check_rules-IsCounted e (x ∷ rules) ts rule (inr a) m p h =
    let r = check_rule e x ts in
    let l = check_rule_lem e x ts rule.name in
    ground (
      arith,
      l.1,
      same_points ts r.1 l.0,
      same_match ts r.1 rule l.0,
      check_rules-IsCounted r.0 rules r.1 rule a,
      check_rules-IsCounted e rules ts rule a,
    )

-- Every rule drops, and there is no dry run.
abbrev pub IsStrict : LimitsEnforcer → Type 0
IsStrict e = (e.dry_run ≡ false) × All (λ r. r.action ≡ drops) e.rules

-- The data points of a series that matches the rule and is passed on.
passed_points : LimitRule → TimeSeries → Option TimeSeries → ℕ
passed_points rule ts none = 0
passed_points rule ts (some _) = if matches_rule ts rule then datapoint_count ts else 0

-- Those of the series of a list that are offered one after the other.
pub passed : LimitRule → LimitsEnforcer → List TimeSeries → ℕ
unfolding passed_points
passed rule e [] = 0
passed rule e (ts ∷ tss) = let r = offer e ts in passed_points rule ts r.1 + passed rule r.0 tss

violated_drops :
    (e : LimitsEnforcer) (rules : List LimitRule) (ts : TimeSeries) (rule : LimitRule)
    → All (λ r. r.action ≡ drops) rules
    → (check_rules e rules ts).2 ≡ some rule
    → rule.action ≡ drops
unfolding check_rules
violated_drops e [] ts rule d h = cc
violated_drops e (x ∷ rules) ts rule d h =
    let r = check_rule e x ts in
    ground (arith, d.0, violated_drops r.0 rules r.1 rule d.1, violated_drops e rules ts rule d.1)

settle_passed :
    (rule : LimitRule) (ts : TimeSeries) (dry_run : Bool) (e' : LimitsEnforcer) (ts' : TimeSeries)
    (o : Option LimitRule) (before : ℕ)
    → e'.dry_run ≡ false
    → ((r : LimitRule) → o ≡ some r → r.action ≡ drops)
    → before ≤ count_of rule.name e'.datapoint_counts
    → (matches_rule ts rule ≡ true
        → o ≡ none
        → (before + datapoint_count ts ≤ rule.max_datapoints_per_second)
          × (before + datapoint_count ts ≤ count_of rule.name e'.datapoint_counts))
    → (let r = settle (e', ts', o) in
        (before + passed_points rule ts r.1 ≤ count_of rule.name r.0.datapoint_counts)
        × ((passed_points rule ts r.1 ≡ 0)
            ⊎ (before + passed_points rule ts r.1 ≤ rule.max_datapoints_per_second)))
unfolding settle only_logs passed_points
settle_passed rule ts dry_run e' ts' none before f d g c = ground arith
settle_passed rule ts dry_run e' ts' (some x) before f d g c = ground (arith, d x refl)

offer_passed :
    (rule : LimitRule) (e : LimitsEnforcer) (ts : TimeSeries)
    → IsStrict e
    → Among rule e.rules
    → 0 < rule.max_datapoints_per_second
    → (let r = offer e ts in
        let before = count_of rule.name e.datapoint_counts in
        (before + passed_points rule ts r.1 ≤ count_of rule.name r.0.datapoint_counts)
        × ((passed_points rule ts r.1 ≡ 0)
            ⊎ (before + passed_points rule ts r.1 ≤ rule.max_datapoints_per_second)))
unfolding offer
offer_passed rule e ts s a p =
    let c = check_rules e e.rules ts in
    settle_passed rule ts e.dry_run c.0 c.1 c.2 (count_of rule.name e.datapoint_counts)
      ((check_rules-counts e e.rules ts).0.1 ∙ s.0) (λ r h. violated_drops e e.rules ts r s.1 h)
      (check_rules-grows e e.rules ts rule.name)
      (λ m h. check_rules-IsCounted e e.rules ts rule a m p h)

passed_bound :
    (rule : LimitRule) (e : LimitsEnforcer) (tss : List TimeSeries) (sum : ℕ)
    → IsStrict e
    → Among rule e.rules
    → 0 < rule.max_datapoints_per_second
    → sum ≤ count_of rule.name e.datapoint_counts
    → sum ≤ rule.max_datapoints_per_second
    → (sum + passed rule e tss ≤ rule.max_datapoints_per_second)
      × (sum + passed rule e tss ≤ count_of rule.name (filter_series e tss).0.datapoint_counts)
unfolding passed filter_series
passed_bound rule e [] sum s a p h k = (omega arith, omega arith)
passed_bound rule e (ts ∷ tss) sum s a p h k =
    let r = offer e ts in
    let o = offer_passed rule e ts s a p in
    let i = offer-IsAccounted e ts in
    let rest =
      passed_bound rule r.0 tss (sum + passed_points rule ts r.1)
        (i.1 ∙ s.0, subst (λ rs. All (λ x. x.action ≡ drops) rs) (sym i.0) s.1)
        (subst (Among rule) (sym i.0) a) p (omega (arith, o.0)) (ground (arith, o.1)) in
    (omega (arith, rest.0), omega (arith, rest.1))

-- Requests with their times, one after the other.
pub passed_all : LimitRule → LimitsEnforcer → List (WriteRequest × ℕ) → ℕ
passed_all rule e [] = 0
passed_all rule e ((req, now) ∷ reqs) =
    passed rule (reset_counts e now) req.timeseries
    + passed_all rule (process e (some req) now).0 reqs

reset_within : (e : LimitsEnforcer) (now : ℕ) → now < e.last_reset + 10 ^ 9 → reset_counts e now ≡ e
unfolding reset_counts
reset_within e now h = ground arith

Among-positive : {A : Type 0} (x : A) (xs : List A) → Among x xs → 0 < length xs
Among-positive x [] a = absurd a
Among-positive x (y ∷ ys) a = omega arith

process_within :
    (e : LimitsEnforcer) (req : WriteRequest) (now : ℕ)
    → now < e.last_reset + 10 ^ 9
    → 0 < length e.rules
    → (process e (some req) now).0 ≡ (filter_series e req.timeseries).0
unfolding process
process_within e req now h p = ground (arith, reset_within e now h)

passed_all_bound :
    (rule : LimitRule) (e : LimitsEnforcer) (reqs : List (WriteRequest × ℕ)) (sum : ℕ)
    → IsStrict e
    → Among rule e.rules
    → 0 < rule.max_datapoints_per_second
    → All (λ r. r.1 < e.last_reset + 10 ^ 9) reqs
    → sum ≤ count_of rule.name e.datapoint_counts
    → sum ≤ rule.max_datapoints_per_second
    → sum + passed_all rule e reqs ≤ rule.max_datapoints_per_second
unfolding passed_all
passed_all_bound rule e [] sum s a p w h k = omega arith
passed_all_bound rule e ((req, now) ∷ reqs) sum s a p w h k =
    let tss = req.timeseries in
    let q = process_within e req now w.0 (Among-positive rule e.rules a) in
    let b = passed_bound rule e tss sum s a p h k in
    let f = filter_series-IsAccounted e tss in
    let e' = (filter_series e tss).0 in
    let rest =
      passed_all_bound rule e' reqs (sum + passed rule e tss)
        (f.1 ∙ s.0, subst (λ rs. All (λ x. x.action ≡ drops) rs) (sym f.0) s.1)
        (subst (Among rule) (sym f.0) a) p
        (subst (λ t. All (λ (r : WriteRequest × ℕ). r.1 < t + 10 ^ 9) reqs) (sym f.2) w.1) b.1
        b.0 in
    omega (
      arith,
      rest,
      ap (λ x. passed rule x tss) (reset_within e now w.0),
      ap (λ x. passed_all rule x reqs) q,
    )

-- Where every rule drops and there is no dry run, the series that match a rule with a limit and are passed
-- on by all the requests of one second, those before the counters start again, have together at most as many
-- data points as the limit.
pub passed_all-within :
    (rule : LimitRule) (e : LimitsEnforcer) (reqs : List (WriteRequest × ℕ))
    → e.dry_run ≡ false
    → All (λ r. r.action ≡ drops) e.rules
    → Among rule e.rules
    → 0 < rule.max_datapoints_per_second
    → All (λ r. r.1 < e.last_reset + 10 ^ 9) reqs
    → passed_all rule e reqs ≤ rule.max_datapoints_per_second
passed_all-within rule e reqs f d a p w =
    omega (arith, passed_all_bound rule e reqs 0 (f, d) a p w (omega arith) (omega arith))
