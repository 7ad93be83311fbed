-- ===== src/Sharding/ShardKey/Tests.antt =====
-- Shard keys of small attribute lists.
use Prim.Native.String.{◌++◌ as str_append}
use metrics_governor.Prelude.{◌-◌, ◌^◌, ◌≡◌, refl, true, false, List, [], ◌∷◌, arith, ◌==◌}
use metrics_governor.Sharding.Text.{sort_strings, insert_string, digit}
use metrics_governor.Tenant.Metrics.{KeyValue, string_value, int_value, bool_value}
use metrics_governor.Sharding.ShardKey.{
  FloatOps, new_shard_key_builder, build_key, build_key_from_proto, labels_of, extract_attributes,
  add_attributes, add_attribute, value_of, int_to_string, decimal, merge_attributes,
}
use metrics_governor.Sharding.ShardKey.Decimal.{int_to_string-sprint_int, sprint_int}
use metrics_governor.Sharding.ShardKey.Laws.{build_key-merged, labels_by, last_value, or_else}

-- Doubles that are whole numbers.
abbrev whole : FloatOps
whole = record {
  is_zero = λ f. f == 0;
  to_int = λ f. f;
  of_int = λ i. i;
  eqb = λ a b. a == b;
  is_negative = λ f. false;
  negate = λ f. f;
  sub = λ a b. a - b;
  times_ten = λ f. f;
  is_positive = λ f. false;
}

abbrev attributes : List KeyValue
attributes =
    record { key = "service"; value = string_value "api" }
    ∷ record { key = "shard"; value = int_value (2 ^ 64 - 12) }
    ∷ record { key = "env"; value = bool_value true }
    ∷ []

key_of :
    build_key_from_proto whole
      (new_shard_key_builder ("shard" ∷ "env" ∷ "zone" ∷ []))
      "up"
      attributes
    ≡ "up|env=true|shard=-12"
unfolding build_key_from_proto build_key labels_of extract_attributes add_attributes add_attribute
    value_of int_to_string decimal digit new_shard_key_builder sort_strings insert_string
key_of = refl

int_to_string-sprint_int_example : int_to_string (2 ^ 64 - 120) ≡ sprint_int (2 ^ 64 - 120)
int_to_string-sprint_int_example = int_to_string-sprint_int (2 ^ 64 - 120) (omega arith)

build_key-merged_example :
    build_key
      (record { sorted_keys = "env" ∷ [] })
      "up"
      (merge_attributes (extract_attributes whole [] ∷ extract_attributes whole attributes ∷ []))
    ≡ str_append "up" (
        labels_by
          (λ key. or_else (last_value whole key attributes) (last_value whole key []))
          ("env" ∷ []))
build_key-merged_example =
    build_key-merged whole (record { sorted_keys = "env" ∷ [] }) "up" [] attributes
