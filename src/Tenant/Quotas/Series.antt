-- ===== src/Tenant/Quotas/Series.antt =====
-- Counting data points and naming series.
use Prim.Native.String.{◌++◌ as str_append}
use metrics_governor.Prelude.{
  ℕ, ◌+◌, ◌-◌, ◌^◌, List, [], ◌∷◌, ◌++◌, map, String, ltb, length, sum_map, length-append,
  if◌then◌else◌, ◌≡◌, ◌∙◌, refl, arith,
}
use metrics_governor.Sharding.Text.{itoa}
use metrics_governor.Tenant.Metrics.{
  AnyValue, string_value, int_value, double_value, bool_value, other_value, KeyValue, Metric,
  ScopeMetrics, ResourceMetrics, data_points,
}

-- `fmt.Sprintf("%d", n)` of the two's complement of an int64.
sprint_int : ℕ → String
sprint_int n = if ltb n (2 ^ 63) then itoa n else str_append "-" (itoa (2 ^ 64 - n))

unfoldable pub count_metric_datapoints : Metric → ℕ
unfolding data_points
count_metric_datapoints m = length (data_points m.data_)

unfoldable pub count_rm_datapoints : ResourceMetrics → ℕ
count_rm_datapoints rm = sum_map (λ sm. sum_map count_metric_datapoints sm.metrics) rm.scope_metrics

module _ (sprint_double : ℕ → String) where
  unfoldable pub get_string_value : AnyValue → String
  unfolding sprint_int
  get_string_value (string_value s) = s
  get_string_value (int_value n) = sprint_int n
  get_string_value (double_value n) = sprint_double n
  get_string_value (bool_value b) = if b then "true" else "false"
  get_string_value other_value = ""

  unfoldable pub key_value : KeyValue → String
  key_value kv = str_append kv.key (str_append "=" (get_string_value kv.value))

  -- The loop over the attributes after the first, which each follow a comma.
  unfoldable pub more_attributes : List KeyValue → String
  more_attributes [] = "}"
  more_attributes (kv ∷ attrs) = str_append "," (str_append (key_value kv) (more_attributes attrs))

  unfoldable pub build_series_key : String → List KeyValue → String
  build_series_key name [] = name
  build_series_key name (kv ∷ attrs) =
      str_append name (str_append "{" (str_append (key_value kv) (more_attributes attrs)))

  unfoldable pub count_metric_datapoints_and_keys : Metric → ℕ × List String
  unfolding data_points
  count_metric_datapoints_and_keys m = (
    length (data_points m.data_),
    map (λ dp. build_series_key m.name dp.attributes) (data_points m.data_),
  )

  -- The sums of the counts and the keys in order, which the nested loops build up.
  unfoldable pub join {ℓ} : {A : Type ℓ} → (A → ℕ × List String) → List A → ℕ × List String
  join f [] = (0, [])
  join f (x ∷ xs) = let rest = join f xs in ((f x).0 + rest.0, (f x).1 ++ rest.1)

  unfoldable pub count_datapoints_and_series : List ResourceMetrics → ℕ × List String
  unfolding count_metric_datapoints_and_keys
  count_datapoints_and_series rms =
      join (λ rm. join (λ sm. join count_metric_datapoints_and_keys sm.metrics) rm.scope_metrics)
        rms

  join-sum_map {ℓ} :
      {A : Type ℓ} (f : A → ℕ × List String) (g : A → ℕ) (xs : List A)
      → ((x : A) → (f x).0 ≡ g x)
      → (join f xs).0 ≡ sum_map g xs
  unfolding join
  join-sum_map f g [] h = refl
  join-sum_map f g (x ∷ xs) h = ground (arith, h x, join-sum_map f g xs h)

  join-length {ℓ} :
      {A : Type ℓ} (f : A → ℕ × List String) (xs : List A)
      → ((x : A) → length (f x).1 ≡ (f x).0)
      → length (join f xs).1 ≡ (join f xs).0
  unfolding join
  join-length f [] h = refl
  join-length f (x ∷ xs) h =
      ground (arith, h x, join-length f xs h, length-append (f x).1 (join f xs).1)

  length-map {ℓ κ} :
      {A : Type ℓ} {B : Type κ} (f : A → B) (xs : List A) → length (map f xs) ≡ length xs
  length-map f [] = refl
  length-map f (x ∷ xs) = ground (arith, length-map f xs)

  -- The two counters of the source agree, and there is one series key per data point.
  pub count_datapoints_and_series_lem :
      (rms : List ResourceMetrics)
      → (count_datapoints_and_series rms).0 ≡ sum_map count_rm_datapoints rms
        × length (count_datapoints_and_series rms).1 ≡ sum_map count_rm_datapoints rms
  unfolding count_datapoints_and_series count_metric_datapoints_and_keys count_rm_datapoints
      count_metric_datapoints
  count_datapoints_and_series_lem rms =
      let metric_ = count_metric_datapoints_and_keys in
      let scope_ = λ (sm : ScopeMetrics). join metric_ sm.metrics in
      let rm_ = λ (rm : ResourceMetrics). join scope_ rm.scope_metrics in
      let counts = join-sum_map rm_ count_rm_datapoints rms (λ rm.
        join-sum_map scope_ (λ sm. sum_map count_metric_datapoints sm.metrics) rm.scope_metrics
          (λ sm. join-sum_map metric_ count_metric_datapoints sm.metrics (λ m. refl))) in
      let lengths = join-length rm_ rms (λ rm. join-length scope_ rm.scope_metrics (λ sm.
        join-length metric_ sm.metrics
          (λ m. length-map (λ dp. build_series_key m.name dp.attributes) (data_points m.data_)))) in
      (counts, lengths ∙ counts)
