-- ===== src/Sharding/Splitter.antt =====
-- The splitter of internal/sharding/splitter.go. Pointers are values, and nil elements of lists are left out of them; data that is
-- nil is `no_data`. What a data point holds beside its attributes is a number. The maps are association lists,
-- and a range over a map is in the order of the list; no result depends on it but in the order of keys.
pub mod Sums
pub mod Laws
mod Tests
use metrics_governor.Prelude.{
  ℕ, ◌+◌, Bool, true, false, ◌&&◌, List, [], ◌∷◌, ◌++◌, Option, none, some, String, length, sum_map,
  ◌==◌, if◌then◌else◌,
}
use metrics_governor.Prelude.Eq.{string_eq}
use metrics_governor.Prelude.Map.{Map, lookup, insert}
use metrics_governor.Sharding.HashRing.{HashRing, get_endpoint, is_empty}
use metrics_governor.Sharding.ShardKey.{
  ShardKeyBuilder, FloatOps, build_key, extract_attributes, merge_attributes,
}
use metrics_governor.Tenant.Metrics.{KeyValue, DataPoint}

pub record Resource : Type 0 where
  pub attributes : List KeyValue
  pub dropped_attributes_count : ℕ

pub record Scope : Type 0 where
  pub name : String
  pub version : String
  pub attributes : List KeyValue
  pub dropped_attributes_count : ℕ

-- The type of the data, with what it holds beside the data points: the aggregation temporality, and whether a sum is
-- monotonic.
pub data Kind : Type 0 where
  gauge summary : Kind
  sum : ℕ → Bool → Kind
  histogram exponential_histogram : ℕ → Kind
  no_data : Kind

pub record Metric : Type 0 where
  pub name : String
  pub description : String
  pub unit : String
  pub metadata : List KeyValue
  pub kind : Kind
  pub points : List DataPoint

pub record ScopeMetrics : Type 0 where
  pub scope : Option Scope
  pub schema_url : String
  pub metrics : List Metric

pub record ResourceMetrics : Type 0 where
  pub resource : Option Resource
  pub scope_metrics : List ScopeMetrics
  pub schema_url : String

unfoldable pub scopes_match : Option Scope → Option Scope → Bool
scopes_match none none = true
scopes_match none (some b) = false
scopes_match (some a) none = false
scopes_match (some a) (some b) = string_eq.beq a.name b.name && string_eq.beq a.version b.version

-- `getOrCreateScopeMetrics` on the list, with the metric that the caller appends to what it returns.
unfoldable pub add_metric : Option Scope → String → Metric → List ScopeMetrics → List ScopeMetrics
add_metric scope schema_url m [] =
    record { scope = scope; schema_url = schema_url; metrics = m ∷ [] } ∷ []
add_metric scope schema_url m (sm ∷ sms) =
    if scopes_match sm.scope scope && string_eq.beq sm.schema_url schema_url
    then record sm { metrics = sm.metrics ++ m ∷ [] } ∷ sms
    else sm ∷ add_metric scope schema_url m sms

-- The entry of the endpoint, or a new one.
unfoldable pub or_new : Option Resource → Option ResourceMetrics → ResourceMetrics
or_new resource none = record { resource = resource; scope_metrics = []; schema_url = "" }
or_new resource (some rm) = rm

unfoldable pub add_to :
    Option Resource
    → Option Scope
    → String
    → Metric
    → String
    → Map String ResourceMetrics
    → Map String ResourceMetrics
add_to resource scope schema_url m endpoint to_rm =
    let rm = or_new resource (lookup endpoint to_rm) in
    insert endpoint (record rm { scope_metrics = add_metric scope schema_url m rm.scope_metrics })
      to_rm

unfoldable pub list_at {ℓ} : {A : Type ℓ} → Option (List A) → List A
list_at none = []
list_at (some xs) = xs

-- `m[k] = append(m[k], x)`
unfoldable pub append_at {ℓ} : {A : Type ℓ} → String → A → Map String (List A) → Map String (List A)
append_at k x m = insert k (list_at (lookup k m) ++ x ∷ []) m

-- The loop over the data points.
unfoldable pub group :
    (DataPoint → String)
    → List DataPoint
    → Map String (List DataPoint)
    → Map String (List DataPoint)
group route [] groups = groups
group route (dp ∷ dps) groups = group route dps (append_at (route dp) dp groups)

-- The loop over the groups.
unfoldable pub add_groups :
    Option Resource
    → Option Scope
    → String
    → Metric
    → Map String (List DataPoint)
    → Map String ResourceMetrics
    → Map String ResourceMetrics
add_groups resource scope schema_url m [] to_rm = to_rm
add_groups resource scope schema_url m ((endpoint, dps) ∷ groups) to_rm =
    add_groups resource scope schema_url m groups
      (add_to resource scope schema_url (record m { points = dps }) endpoint to_rm)

-- `rm.GetResource().GetAttributes()`
unfoldable pub attributes_of : Option Resource → List KeyValue
attributes_of none = []
attributes_of (some r) = r.attributes

unfoldable pub add_rms :
    Map String ResourceMetrics
    → Map String (List ResourceMetrics)
    → Map String (List ResourceMetrics)
add_rms [] result = result
add_rms ((endpoint, rm) ∷ rms) result = add_rms rms (append_at endpoint rm result)

module _ (hash : String → ℕ) (fl : FloatOps) (key_builder : ShardKeyBuilder) (ring : HashRing) where
  -- The endpoint of a data point.
  unfoldable pub route : Option Resource → String → DataPoint → String
  route resource metric_name dp = get_endpoint hash ring (
      build_key key_builder metric_name (
        merge_attributes (
          extract_attributes fl (attributes_of resource)
          ∷ extract_attributes fl dp.attributes
          ∷ [])))

  -- The body that splitGauge, splitSum, splitHistogram, splitExponentialHistogram and splitSummary share, up to
  -- the fields of the type, which are those of `kind`.
  unfoldable pub split_points :
      Option Resource
      → Option Scope
      → String
      → Metric
      → Map String ResourceMetrics
      → Map String ResourceMetrics
  split_points resource scope schema_url m to_rm =
      add_groups resource scope schema_url m (group (route resource m.name) m.points []) to_rm

  unfoldable pub split_kind :
      Kind
      → Option Resource
      → Option Scope
      → String
      → Metric
      → Map String ResourceMetrics
      → Map String ResourceMetrics
  split_kind no_data resource scope schema_url m to_rm = to_rm
  split_kind _ resource scope schema_url m to_rm = split_points resource scope schema_url m to_rm

  unfoldable pub split_metric :
      Option Resource
      → Option Scope
      → String
      → Metric
      → Map String ResourceMetrics
      → Map String ResourceMetrics
  split_metric resource scope schema_url m to_rm =
      split_kind m.kind resource scope schema_url m to_rm

  unfoldable pub split_metrics :
      Option Resource
      → Option Scope
      → String
      → List Metric
      → Map String ResourceMetrics
      → Map String ResourceMetrics
  split_metrics resource scope schema_url [] to_rm = to_rm
  split_metrics resource scope schema_url (m ∷ ms) to_rm =
      split_metrics resource scope schema_url ms (split_metric resource scope schema_url m to_rm)

  unfoldable pub split_scopes :
      Option Resource → List ScopeMetrics → Map String ResourceMetrics → Map String ResourceMetrics
  split_scopes resource [] to_rm = to_rm
  split_scopes resource (sm ∷ sms) to_rm =
      split_scopes resource sms (split_metrics resource sm.scope sm.schema_url sm.metrics to_rm)

  unfoldable pub split_rms :
      List ResourceMetrics → Map String (List ResourceMetrics) → Map String (List ResourceMetrics)
  split_rms [] result = result
  split_rms (rm ∷ rms) result =
      split_rms rms (add_rms (split_scopes rm.resource rm.scope_metrics []) result)

  -- `Split`; a nil map has no keys.
  unfoldable pub split : List ResourceMetrics → Map String (List ResourceMetrics)
  split rms = if length rms == 0 then [] else if is_empty ring then [] else split_rms rms []

unfoldable pub points_of : Kind → List DataPoint → ℕ
points_of no_data dps = 0
points_of _ dps = length dps

-- `CountDatapoints`
unfoldable pub count_datapoints : List ResourceMetrics → ℕ
count_datapoints rms =
    sum_map
      (λ (rm : ResourceMetrics).
        sum_map
          (λ (sm : ScopeMetrics). sum_map (λ (m : Metric). points_of m.kind m.points) sm.metrics)
          rm.scope_metrics)
      rms
