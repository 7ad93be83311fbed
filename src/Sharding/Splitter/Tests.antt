-- ===== src/Sharding/Splitter/Tests.antt =====
-- A batch of two metrics that is split over two endpoints.
use Prim.Native.Char.{code}
use metrics_governor.Prelude.{
  ℕ, ◌+◌, ◌*◌, ◌%◌, ◌-◌, ◌≡◌, ◌==◌, refl, false, List, [], ◌∷◌, none, String,
}
use metrics_governor.Prelude.Eq.{string_eq}
use metrics_governor.Prelude.Map.{measure, lookup}
use metrics_governor.Tenant.Metrics.{DataPoint, string_value}
use metrics_governor.Sharding.HashRing.{HashRing}
use metrics_governor.Sharding.ShardKey.{FloatOps}
use metrics_governor.Sharding.Splitter.{ResourceMetrics, gauge, split, count_datapoints, points_of}
use metrics_governor.Sharding.Splitter.Sums.{Weight, rms_sum}
use metrics_governor.Sharding.Splitter.Laws.{routed, split-routed}

-- Doubles that are whole numbers.
abbrev whole : FloatOps
whole = record {
  is_zero = λ f. f == 0;
  to_int = λ f. f;
  of_int = λ i. i;
  eqb = λ a b. a == b;
  is_negative = λ f. false;
  negate = λ f. f;
  sub = λ a b. a - b;
  times_ten = λ f. f;
  is_positive = λ f. false;
}

abbrev weigh : String → ℕ
weigh String.[] = 7
weigh (String.◌∷◌ c s) = (code c + 31 * weigh s) % 1009

-- The hashes of the ring are those of two endpoints.
abbrev ring : HashRing
ring = record {
  ring = 300 ∷ 800 ∷ [];
  nodes = (300, "a") ∷ (800, "b") ∷ [];
  endpoints = "a" ∷ "b" ∷ [];
  virtual_nodes = 1;
}

abbrev point : String → DataPoint
point pod = record {
  attributes = record { key = "pod"; value = string_value pod } ∷ [];
  payload = 1;
}

abbrev batch : List ResourceMetrics
batch =
    record {
      resource = none;
      scope_metrics =
          record {
            scope = none;
            schema_url = "";
            metrics =
                record {
                  name = "up";
                  description = "";
                  unit = "";
                  metadata = [];
                  kind = gauge;
                  points = point "x" ∷ point "y" ∷ point "z" ∷ [];
                }
                ∷ [];
          }
          ∷ [];
      schema_url = "";
    }
    ∷ []

counts_three : count_datapoints batch ≡ 3
unfolding count_datapoints points_of
counts_three = refl

abbrev payloads : Weight
payloads r s u m dp = dp.payload

split-routed_example :
    measure
      (rms_sum payloads)
      (lookup "a" (split weigh whole (record { sorted_keys = "pod" ∷ [] }) ring batch))
    ≡ rms_sum (routed weigh whole (record { sorted_keys = "pod" ∷ [] }) ring payloads "a") batch
split-routed_example =
    split-routed weigh whole (record { sorted_keys = "pod" ∷ [] }) ring payloads "a" batch refl
