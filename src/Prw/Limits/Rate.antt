-- ===== src/Prw/Limits/Rate.antt =====
-- The limit on data points per second.
use metrics_governor.Prelude.{
  ℕ, ◌+◌, ◌≤◌, ◌<◌, ◌≡◌, refl, ap, ◌∙◌, ◌⊎◌, Bool, true, false, List, [], ◌∷◌, String, arith,
  if◌then◌else◌,
}
use metrics_governor.Prelude.Eq.{string_eq}
use metrics_governor.Prelude.Map.{Map, insert, lookup-insert}
use metrics_governor.Prw.Proto.Messages.{Label, TimeSeries}
use metrics_governor.Prw.Series.{
  datapoint_count, sort_labels, sorted_labels, insert_label, label_value, bytes_eqb, bytes_ltb,
  name_label,
}
use metrics_governor.Prw.Limits.{
  LimitRule, LimitsEnforcer, check_cardinality, check_rule, matches_rule, labels_match, count_of,
}

-- Sorting keeps the first label of each name.
smaller_differs :
    (xs ys zs : List ℕ) → bytes_ltb xs ys ≡ true → bytes_eqb xs zs ≡ true → bytes_eqb ys zs ≡ false
unfolding bytes_ltb bytes_eqb
smaller_differs xs [] zs l e = absurd (ground arith)
smaller_differs [] (y ∷ ys) [] l e = refl
smaller_differs [] (y ∷ ys) (z ∷ zs) l e = absurd (ground arith)
smaller_differs (x ∷ xs) (y ∷ ys) [] l e = refl
smaller_differs (x ∷ xs) (y ∷ ys) (z ∷ zs) l e = ground (arith, smaller_differs xs ys zs)

label_value-insert_label :
    (name : List ℕ) (l : Label) (ks : List Label)
    → label_value name (insert_label l ks) ≡ label_value name (l ∷ ks)
unfolding label_value insert_label
label_value-insert_label name l [] = refl
label_value-insert_label name l (k ∷ ks) =
    ground (arith, label_value-insert_label name l ks, smaller_differs k.name l.name name)

label_value-sorted_labels :
    (name : List ℕ) (ls : List Label) → label_value name (sorted_labels ls) ≡ label_value name ls
unfolding label_value sorted_labels
label_value-sorted_labels name [] = refl
label_value-sorted_labels name (l ∷ ls) =
    label_value-insert_label name l (sorted_labels ls)
    ∙ ap (λ v. if bytes_eqb l.name name then l.value else v) (label_value-sorted_labels name ls)

labels_match-sort_labels :
    (ts : TimeSeries) (ps : List (List ℕ × (List ℕ → Bool)))
    → labels_match (sort_labels ts) ps ≡ labels_match ts ps
unfolding labels_match
labels_match-sort_labels ts [] = refl
labels_match-sort_labels ts ((name, re) ∷ ps) =
    ground (arith, label_value-sorted_labels name ts.labels, labels_match-sort_labels ts ps)

pub matches_rule-sort_labels :
    (ts : TimeSeries) (rule : LimitRule) → matches_rule (sort_labels ts) rule ≡ matches_rule ts rule
unfolding matches_rule
matches_rule-sort_labels ts rule = ground (
  arith,
  labels_match-sort_labels ts rule.label_regexes,
  label_value-sorted_labels name_label ts.labels,
)

count_of-insert :
    (k n : String) (v : ℕ) (m : Map String ℕ)
    → count_of n (insert k v m) ≡ (if string_eq.beq k n then v else count_of n m)
unfolding count_of
count_of-insert k n v m = ground (arith, lookup-insert k n v m)

check_cardinality-keeps :
    (e : LimitsEnforcer) (rule : LimitRule) (ts : TimeSeries)
    → (let r = check_cardinality e rule ts in
        ((r.1 ≡ ts) ⊎ (r.1 ≡ sort_labels ts)) × (r.0.datapoint_counts ≡ e.datapoint_counts))
unfolding check_cardinality
check_cardinality-keeps e rule ts = ground arith

-- What a check leaves of a series and of the counts. A rule that is not violated has counted the data points,
-- within its limit.
abbrev pub IsCounted : LimitsEnforcer → LimitRule → TimeSeries → LimitsEnforcer → Type 0
IsCounted e rule ts e' =
    let total = count_of rule.name e.datapoint_counts + datapoint_count ts in
    (total ≤ rule.max_datapoints_per_second) × (total ≤ count_of rule.name e'.datapoint_counts)

pub check_rule_lem :
    (e : LimitsEnforcer) (rule : LimitRule) (ts : TimeSeries) (n : String)
    → (let r = check_rule e rule ts in
        ((r.1 ≡ ts) ⊎ (r.1 ≡ sort_labels ts))
        × (count_of n e.datapoint_counts ≤ count_of n r.0.datapoint_counts)
        × (0 < rule.max_datapoints_per_second → r.2 ≡ false → IsCounted e rule ts r.0))
unfolding check_rule
check_rule_lem e rule ts n =
    let total = count_of rule.name e.datapoint_counts + datapoint_count ts in
    let e' = record e { datapoint_counts = insert rule.name total e.datapoint_counts } in
    let i = string_eq.beq_iff rule.name n in
    let j = string_eq.beq_iff rule.name rule.name in
    grind (
      arith,
      i,
      j,
      count_of-insert rule.name n total e.datapoint_counts,
      count_of-insert rule.name rule.name total e.datapoint_counts,
      check_cardinality-keeps e rule ts,
      check_cardinality-keeps e' rule ts,
    )
