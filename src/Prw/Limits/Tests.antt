-- ===== src/Prw/Limits/Tests.antt =====
-- Runs of the limits on small requests.
use metrics_governor.Prelude.{
  ℕ, ◌+◌, ◌≡◌, ◌≤◌, refl, inl, true, false, [], ◌∷◌, some, length, arith,
}
use metrics_governor.Prw.Proto.Messages.{TimeSeries, WriteRequest}
use metrics_governor.Prw.Proto.Messages.Request.{empty_series}
use metrics_governor.Prw.Series.{
  label_value, bytes_eqb, sorted_labels, insert_label, bytes_ltb, hash_labels, hash_bytes,
  hash_byte,
}
use metrics_governor.Prw.Limits.{
  LimitRule, drops, LimitsEnforcer, labels_match, matches_rule, count_of, set_of, member,
  check_cardinality, check_rule, check_rules, only_logs, settle, offer, kept, filter_series,
  reset_counts, process,
}
use metrics_governor.Prw.Limits.Accounted.{series_of, process-accounted}
use metrics_governor.Prw.Limits.Window.{passed_all, passed_all-within}

-- At most three data points a second, and one series, of any name that is not empty.
abbrev rule : LimitRule
rule = record {
  name = "r";
  metric_regex = some (λ s. elim s [ [] ↦ false | _ ∷ _ ↦ true ]);
  label_regexes = [];
  max_datapoints_per_second = 3;
  max_cardinality = 1;
  action = drops;
}

-- Two samples of one metric.
abbrev series : ℕ → TimeSeries
series c = record empty_series {
  labels = record { name = 95 ∷ 95 ∷ 110 ∷ 97 ∷ 109 ∷ 101 ∷ 95 ∷ 95 ∷ []; value = c ∷ [] } ∷ [];
  samples = record { value = 0; timestamp = 1 } ∷ record { value = 0; timestamp = 2 } ∷ [];
}

abbrev request : WriteRequest
request = record { timeseries = series 97 ∷ series 97 ∷ series 98 ∷ []; metadata = [] }

abbrev enforcer : LimitsEnforcer
enforcer = record {
  rules = rule ∷ [];
  dry_run = false;
  cardinality_map = [];
  datapoint_counts = [];
  last_reset = 0;
  total_dropped = 0;
  total_violations = 0;
}

process_drops : length (series_of (process enforcer (some request) 5).1) ≡ 1
unfolding series_of process reset_counts filter_series offer check_rules check_rule
    check_cardinality settle kept only_logs matches_rule labels_match label_value bytes_eqb count_of
    set_of member sorted_labels insert_label bytes_ltb hash_labels hash_bytes hash_byte
process_drops = refl

process-accounted_example :
    let r = process enforcer (some request) 5 in
    (r.0.total_dropped + length (series_of r.1) ≡ 3)
    × (r.0.total_dropped + 0 ≤ r.0.total_violations + 0)
    × (false ≡ true → r.0.total_dropped ≡ 0)
process-accounted_example = process-accounted enforcer request 5

passed_all-within_example : passed_all rule enforcer ((request, 5) ∷ (request, 6) ∷ []) ≤ 3
passed_all-within_example =
    passed_all-within rule enforcer ((request, 5) ∷ (request, 6) ∷ []) refl (refl, tt) (inl refl)
      (omega arith) (omega arith, (omega arith, tt))
