-- ===== src/Sharding/Splitter/Laws.antt =====
-- Where the splitter puts the data points.
use metrics_governor.Prelude.{
  ℕ, ◌+◌, ◌≡◌, refl, Bool, true, false, ◌&&◌, List, [], ◌∷◌, Option, String, sum_map, if◌then◌else◌,
  arith,
}
use metrics_governor.Prelude.Eq.{string_eq}
use metrics_governor.Prelude.Map.{
  Map, lookup, entry_sum, entry_sum-lookup, measure, Distinct, insert-Distinct,
}
use metrics_governor.Tenant.Metrics.{DataPoint}
use metrics_governor.Sharding.HashRing.{HashRing, is_empty}
use metrics_governor.Sharding.ShardKey.{ShardKeyBuilder, FloatOps}
use metrics_governor.Sharding.Splitter.{
  Resource, Scope, Kind, gauge, summary, sum, histogram, exponential_histogram, no_data, Metric,
  ScopeMetrics, ResourceMetrics, append_at, group, add_rms, route, split_points, split_kind,
  split_metric, split_metrics, split_scopes, split_rms, split,
}
use metrics_governor.Sharding.Splitter.Sums.{
  Weight, metric_sum, scopes_sum, rm_sum, rms_sum, scope_id, bare, HaveResource,
  entry_sum-add_groups, entry_sum-group, entry_sum-append_at,
}

unfoldable pub has_data : Kind → Bool
has_data no_data = false
has_data _ = true

module _ (hash : String → ℕ) (fl : FloatOps) (key_builder : ShardKeyBuilder) (ring : HashRing)
    (w : Weight) (j : String) where
  -- The weight of the data points of metrics with data that go to the endpoint.
  abbrev pub routed : Weight
  routed r s u m dp =
      if has_data m.kind && string_eq.beq (route hash fl key_builder ring r m.name dp) j
      then w r s u m dp
      else 0

  split_points-sum :
      (r : Option Resource) (scope : Option Scope) (u : String) (m : Metric)
      (to_rm : Map String ResourceMetrics)
      → HaveResource r to_rm
      → HaveResource r (split_points hash fl key_builder ring r scope u m to_rm)
        × (entry_sum (rm_sum w) j (split_points hash fl key_builder ring r scope u m to_rm)
            ≡ entry_sum (rm_sum w) j to_rm
              + sum_map
                  (λ dp.
                    if string_eq.beq (route hash fl key_builder ring r m.name dp) j
                    then w r (scope_id scope) u (bare m) dp
                    else 0)
                  m.points)
  unfolding split_points
  split_points-sum r scope u m to_rm h =
      let to = route hash fl key_builder ring r m.name in
      let a = entry_sum-add_groups w r scope u m j (group to m.points []) to_rm h in
      (a.0, omega (arith, a.1, entry_sum-group to (w r (scope_id scope) u (bare m)) j m.points []))

  no_sum : (dps : List DataPoint) → sum_map (λ dp. 0) dps ≡ 0
  no_sum [] = refl
  no_sum (dp ∷ dps) = omega (arith, no_sum dps)

  -- The sum of the entry of the endpoint grows by a weight.
  abbrev Grows :
      Option Resource → Map String ResourceMetrics → Map String ResourceMetrics → ℕ → Type 0
  Grows r to_rm to_rm' n =
      HaveResource r to_rm' × (entry_sum (rm_sum w) j to_rm' ≡ entry_sum (rm_sum w) j to_rm + n)

  split_kind-sum :
      (k : Kind) (r : Option Resource) (scope : Option Scope) (u : String) (m : Metric)
      (to_rm : Map String ResourceMetrics)
      → HaveResource r to_rm
      → Grows r to_rm (split_kind hash fl key_builder ring k r scope u m to_rm) (
          sum_map
            (λ dp.
              if has_data k && string_eq.beq (route hash fl key_builder ring r m.name dp) j
              then w r (scope_id scope) u (bare m) dp
              else 0)
            m.points)
  unfolding split_kind has_data
  split_kind-sum no_data r scope u m to_rm h = (h, omega (arith, no_sum m.points))
  split_kind-sum gauge r scope u m to_rm h = split_points-sum r scope u m to_rm h
  split_kind-sum summary r scope u m to_rm h = split_points-sum r scope u m to_rm h
  split_kind-sum (sum t b) r scope u m to_rm h = split_points-sum r scope u m to_rm h
  split_kind-sum (histogram t) r scope u m to_rm h = split_points-sum r scope u m to_rm h
  split_kind-sum (exponential_histogram t) r scope u m to_rm h =
      split_points-sum r scope u m to_rm h

  split_metrics-sum :
      (r : Option Resource) (scope : Option Scope) (u : String) (ms : List Metric)
      (to_rm : Map String ResourceMetrics)
      → HaveResource r to_rm
      → Grows r to_rm
          (split_metrics hash fl key_builder ring r scope u ms to_rm)
          (sum_map (metric_sum routed r (scope_id scope) u) ms)
  unfolding split_metrics split_metric
  split_metrics-sum r scope u [] to_rm h = (h, omega arith)
  split_metrics-sum r scope u (m ∷ ms) to_rm h =
      let a = split_kind-sum m.kind r scope u m to_rm h in
      let rest =
        split_metrics-sum r scope u ms (split_metric hash fl key_builder ring r scope u m to_rm)
          a.0 in
      (rest.0, omega (arith, a.1, rest.1))

  split_scopes-sum :
      (r : Option Resource) (sms : List ScopeMetrics) (to_rm : Map String ResourceMetrics)
      → HaveResource r to_rm
      → Grows r to_rm (split_scopes hash fl key_builder ring r sms to_rm) (scopes_sum routed r sms)
  unfolding split_scopes
  split_scopes-sum r [] to_rm h = (h, omega arith)
  split_scopes-sum r (sm ∷ sms) to_rm h =
      let a = split_metrics-sum r sm.scope sm.schema_url sm.metrics to_rm h in
      let rest =
        split_scopes-sum r sms
          (split_metrics hash fl key_builder ring r sm.scope sm.schema_url sm.metrics to_rm) a.0 in
      (rest.0, omega (arith, a.1, rest.1))

  add_rms-sum :
      (to_rm : Map String ResourceMetrics) (result : Map String (List ResourceMetrics))
      → Distinct result
      → Distinct (add_rms to_rm result)
        × (entry_sum (rms_sum w) j (add_rms to_rm result)
            ≡ entry_sum (rms_sum w) j result + entry_sum (rm_sum w) j to_rm)
  unfolding add_rms append_at
  add_rms-sum [] result d = (d, omega arith)
  add_rms-sum ((k, rm) ∷ to_rm) result d =
      let rest = add_rms-sum to_rm (append_at k rm result) (insert-Distinct k _ result d) in
      (rest.0, omega (arith, rest.1, entry_sum-append_at (rm_sum w) k j rm result))

  split_rms-sum :
      (rms : List ResourceMetrics) (result : Map String (List ResourceMetrics))
      → Distinct result
      → Distinct (split_rms hash fl key_builder ring rms result)
        × (entry_sum (rms_sum w) j (split_rms hash fl key_builder ring rms result)
            ≡ entry_sum (rms_sum w) j result + rms_sum routed rms)
  unfolding split_rms
  split_rms-sum [] result d = (d, omega arith)
  split_rms-sum (rm ∷ rms) result d =
      let to_rm = split_scopes hash fl key_builder ring rm.resource rm.scope_metrics [] in
      let s = split_scopes-sum rm.resource rm.scope_metrics [] tt in
      let a = add_rms-sum to_rm result d in
      let rest = split_rms-sum rms (add_rms to_rm result) a.0 in
      (rest.0, omega (arith, s.1, a.1, rest.1))

  -- With a ring that is not empty, the batch of an endpoint has exactly the data points whose shard key, of the
  -- metric's name and of the merged attributes, the ring gives to the endpoint, under the same resource,
  -- scope name and version, schema and metric: every weight of these has over the batch of the endpoint the sum that it has over
  -- the points of the input that go there. Data that is nil has no points.
  pub split-routed :
      (rms : List ResourceMetrics)
      → is_empty ring ≡ false
      → measure (rms_sum w) (lookup j (split hash fl key_builder ring rms)) ≡ rms_sum routed rms
  unfolding split
  split-routed [] h = refl
  split-routed (rm ∷ rms) h =
      let s = split_rms-sum (rm ∷ rms) [] tt in
      let l =
        entry_sum-lookup (rms_sum w) j (split_rms hash fl key_builder ring (rm ∷ rms) []) s.0 in
      ground (arith, s.1, l)
