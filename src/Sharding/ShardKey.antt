-- ===== src/Sharding/ShardKey.antt =====
-- The shard keys of internal/sharding/shardkey.go. A map of attributes is an association list; its order is never seen.
-- Elements of the list of attributes that are nil are left out of it. The buffer that the builder reuses is left out.
pub mod Laws
pub mod Decimal
mod Tests
use Prim.Native.String.{◌++◌ as str_append}
use metrics_governor.Prelude.{
  ℕ, zero, suc, ◌+◌, ◌-◌, ◌/◌, ◌%◌, ◌^◌, Bool, true, false, not, ◌&&◌, List, [], ◌∷◌, Option, none,
  some, String, ltb, ◌==◌, if◌then◌else◌,
}
use metrics_governor.Prelude.Eq.{string_eq}
use metrics_governor.Prelude.Map.{Map, lookup, insert}
use metrics_governor.Sharding.Text.{digit, sort_strings}
use metrics_governor.Tenant.Metrics.{
  AnyValue, string_value, int_value, double_value, bool_value, other_value, KeyValue,
}

pub record ShardKeyBuilder : Type 0 where
  pub sorted_keys : List String

unfoldable pub new_shard_key_builder : List String → ShardKeyBuilder
new_shard_key_builder labels = record { sorted_keys = sort_strings labels }

-- The loop of BuildKey over the configured labels.
unfoldable pub labels_of : List String → Map String String → String
labels_of [] attrs = ""
labels_of (key ∷ keys) attrs =
    let rest = labels_of keys attrs in
    elim (lookup key attrs) [
      | none ↦ rest
      | some value ↦
          if string_eq.beq value ""
          then rest
          else str_append "|" (str_append key (str_append "=" (str_append value rest)))
    ]

unfoldable pub build_key : ShardKeyBuilder → String → Map String String → String
build_key b metric_name attrs = str_append metric_name (labels_of b.sorted_keys attrs)

-- The loop `for i > 0` on the digits, in front of those that are written.
unfoldable pub decimal : ℕ → ℕ → String → String
decimal zero i written = written
decimal (suc fuel) i written =
    let rest = decimal fuel (i / 10) (str_append (digit (i % 10)) written) in
    if i == 0 then written else rest

-- `intToString` of the two's complement of an int64, which has 19 digits at most.
unfoldable pub int_to_string : ℕ → String
int_to_string i =
    if i == 0
    then "0"
    else if i == 2 ^ 63
    then "-9223372036854775808"
    else if ltb i (2 ^ 63)
    then decimal 19 i ""
    else str_append "-" (decimal 19 (2 ^ 64 - i) "")

-- The float64 operations of `floatToString` on the bits: `f == 0`, `int64(f)`, `float64(i)`, `==`, `f < 0`, `-f`,
-- `-`, `f *= 10` and `f > 0`.
pub record FloatOps : Type 0 where
  pub is_zero : ℕ → Bool
  pub to_int : ℕ → ℕ
  pub of_int : ℕ → ℕ
  pub eqb : ℕ → ℕ → Bool
  pub is_negative : ℕ → Bool
  pub negate : ℕ → ℕ
  pub sub : ℕ → ℕ → ℕ
  pub times_ten : ℕ → ℕ
  pub is_positive : ℕ → Bool

module _ (fl : FloatOps) where
  -- The decimal places, of which each is a digit.
  unfoldable pub places : ℕ → ℕ → String
  places zero frac = ""
  places (suc left) frac =
      let next = fl.times_ten frac in
      let rest = places left (fl.sub next (fl.of_int (fl.to_int next))) in
      if fl.is_positive frac then str_append (digit (fl.to_int next)) rest else ""

  unfoldable pub float_to_string : ℕ → String
  float_to_string f =
      if fl.is_zero f
      then "0"
      else if fl.eqb f (fl.of_int (fl.to_int f))
      then int_to_string (fl.to_int f)
      else (let a = if fl.is_negative f then fl.negate f else f in
          str_append (if fl.is_negative f then "-" else "") (
            str_append (int_to_string (fl.to_int a))
              (str_append "." (places 6 (fl.sub a (fl.of_int (fl.to_int a)))))))

  unfoldable pub value_of : AnyValue → String
  value_of (string_value s) = s
  value_of (int_value n) = int_to_string n
  value_of (double_value f) = float_to_string f
  value_of (bool_value b) = if b then "true" else "false"
  value_of other_value = ""

  unfoldable pub add_attribute : KeyValue → Map String String → Map String String
  add_attribute kv m =
      let value = value_of kv.value in
      if string_eq.beq kv.key ""
      then m
      else if string_eq.beq value ""
      then m
      else insert kv.key value m

  unfoldable pub add_attributes : List KeyValue → Map String String → Map String String
  add_attributes [] m = m
  add_attributes (kv ∷ attrs) m = add_attributes attrs (add_attribute kv m)

  unfoldable pub extract_attributes : List KeyValue → Map String String
  extract_attributes attrs = add_attributes attrs []

  unfoldable pub build_key_from_proto : ShardKeyBuilder → String → List KeyValue → String
  build_key_from_proto b metric_name attrs = build_key b metric_name (extract_attributes attrs)

-- `for k, v := range m { result[k] = v }`
unfoldable pub copy_into : Map String String → Map String String → Map String String
copy_into result [] = result
copy_into result ((k, v) ∷ m) = copy_into (insert k v result) m

unfoldable pub merge_all : Map String String → List (Map String String) → Map String String
merge_all result [] = result
merge_all result (m ∷ ms) = merge_all (copy_into result m) ms

unfoldable pub merge_attributes : List (Map String String) → Map String String
merge_attributes maps = merge_all [] maps
