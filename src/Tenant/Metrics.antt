-- ===== src/Tenant/Metrics.antt =====
-- The parts of the OTLP messages of internal/otlpvt that internal/tenant reads and writes. Pointers
-- are values; a nil resource is `none`. What a data point holds beside its attributes is a number.
use metrics_governor.Prelude.{ℕ, Bool, List, [], map, Option, String}

-- An int64 is its two's complement and a double its bits. `other_value` is an array, a list of
-- pairs, bytes, a missing value or a nil pointer.
pub data AnyValue : Type 0 where
  string_value : String → AnyValue
  int_value double_value : ℕ → AnyValue
  bool_value : Bool → AnyValue
  other_value : AnyValue

pub record KeyValue : Type 0 where
  pub key : String
  pub value : AnyValue

pub record DataPoint : Type 0 where
  pub attributes : List KeyValue
  pub payload : ℕ

-- The types of data points differ only in what `payload` stands for.
pub data MetricData : Type 0 where
  gauge sum histogram summary exponential_histogram : List DataPoint → MetricData
  no_data : MetricData

pub record Metric : Type 0 where
  pub name : String
  pub data_ : MetricData

pub record ScopeMetrics : Type 0 where
  pub metrics : List Metric

pub record ResourceMetrics : Type 0 where
  pub resource : Option (List KeyValue)
  pub scope_metrics : List ScopeMetrics

-- Every case of the switches on `m.Data` runs the same loop on the data points.
unfoldable pub data_points : MetricData → List DataPoint
data_points (gauge dps) = dps
data_points (sum dps) = dps
data_points (histogram dps) = dps
data_points (summary dps) = dps
data_points (exponential_histogram dps) = dps
data_points no_data = []

unfoldable pub map_data_points : (DataPoint → DataPoint) → MetricData → MetricData
map_data_points f (gauge dps) = gauge (map f dps)
map_data_points f (sum dps) = sum (map f dps)
map_data_points f (histogram dps) = histogram (map f dps)
map_data_points f (summary dps) = summary (map f dps)
map_data_points f (exponential_histogram dps) = exponential_histogram (map f dps)
map_data_points f no_data = no_data
