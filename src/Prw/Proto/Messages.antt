-- ===== src/Prw/Proto/Messages.antt =====
-- The messages of internal/prw/types.go, with the methods marshal and unmarshal of internal/prw/proto.go.
-- A string is the list of its bytes. A float64 is its bits, and an integer the pattern of its bits.
-- Interning keeps the content of strings and is left out.
pub mod Small
pub mod Native
pub mod Request
pub mod Termination
pub mod Malformed
mod Tests
use metrics_governor.Prelude.{
  ℕ, ◌+◌, ◌-◌, ◌^◌, ◌%◌, Bool, true, false, ◌||◌, List, [], ◌∷◌, ◌++◌, length, ltb, ◌==◌,
  if◌then◌else◌,
}
use metrics_governor.Prw.Proto.Wire.{tag_length_delim}

pub record Label : Type 0 where
  pub name : List ℕ
  pub value : List ℕ

pub record Sample : Type 0 where
  pub value : ℕ
  pub timestamp : ℕ

pub record Exemplar : Type 0 where
  pub labels : List Label
  pub value : ℕ
  pub timestamp : ℕ

pub record BucketSpan : Type 0 where
  pub offset : ℕ
  pub length_ : ℕ

pub record Histogram : Type 0 where
  pub count : ℕ
  pub count_float : ℕ
  pub sum : ℕ
  pub schema : ℕ
  pub zero_threshold : ℕ
  pub zero_count : ℕ
  pub zero_count_float : ℕ
  pub negative_spans : List BucketSpan
  pub negative_deltas : List ℕ
  pub negative_counts : List ℕ
  pub positive_spans : List BucketSpan
  pub positive_deltas : List ℕ
  pub positive_counts : List ℕ
  pub reset_hint : ℕ
  pub timestamp : ℕ

pub record TimeSeries : Type 0 where
  pub labels : List Label
  pub samples : List Sample
  pub exemplars : List Exemplar
  pub histograms : List Histogram

pub record MetricMetadata : Type 0 where
  pub type_ : ℕ
  pub metric_family_name : List ℕ
  pub help : List ℕ
  pub unit : List ℕ

pub record WriteRequest : Type 0 where
  pub timeseries : List TimeSeries
  pub metadata : List MetricMetadata

-- `int64(x)` and `uint64(x)` of an int32.
abbrev pub sign_extend : ℕ → ℕ
sign_extend p = if ltb p (2 ^ 31) then p else p + (2 ^ 64 - 2 ^ 32)

-- `int32(x)` and `uint32(x)`.
abbrev pub low_32 : ℕ → ℕ
low_32 v = v % 2 ^ 32

-- `x == 0` of a float64, which holds of both zeros.
abbrev pub is_zero_float : ℕ → Bool
is_zero_float b = b == 0 || b == 2 ^ 63

-- A loop that appends a field for each element.
unfoldable pub repeated {ℓ} : {A : Type ℓ} → (A → List ℕ) → ℕ → List A → List ℕ
repeated marshal field_num [] = []
repeated marshal field_num (x ∷ xs) =
    tag_length_delim field_num (marshal x) ++ repeated marshal field_num xs
