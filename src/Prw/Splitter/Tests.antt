-- ===== src/Prw/Splitter/Tests.antt =====
-- A request of two series that is split over two endpoints.
use Prim.Native.Char.{code}
use metrics_governor.Prelude.{
  ℕ, ◌+◌, ◌*◌, ◌%◌, ◌≡◌, ◌≢◌, ◌⊎◌, refl, ◌==◌, if◌then◌else◌, List, [], ◌∷◌, none, some, String,
}
use metrics_governor.Prelude.Eq.{string_eq}
use metrics_governor.Prelude.Map.{lookup}
use metrics_governor.Prw.Proto.Messages.{TimeSeries, WriteRequest}
use metrics_governor.Prw.Proto.Messages.Request.{empty_series}
use metrics_governor.Prw.Series.{label_value, bytes_eqb, bytes_ltb}
use metrics_governor.Sharding.HashRing.{HashRing}
use metrics_governor.Prw.Splitter.{
  new_shard_key_builder, sort_keys, insert_key, build_key, keys_of, label_in_map, split,
}
use metrics_governor.Prw.Splitter.Laws.{series_in, metadata_in, those, split-those}

abbrev weigh : String → ℕ
weigh String.[] = 7
weigh (String.◌∷◌ c s) = (code c + 31 * weigh s) % 1009

-- The strings of the test: whether the byte of `a` occurs.
abbrev text : List ℕ → String
text [] = "z"
text (b ∷ bs) = let rest = text bs in if b == 97 then "a" else rest

abbrev ring : HashRing
ring = record {
  ring = 300 ∷ 800 ∷ [];
  nodes = (300, "a") ∷ (800, "b") ∷ [];
  endpoints = "a" ∷ "b" ∷ [];
  virtual_nodes = 1;
}

abbrev named : ℕ → TimeSeries
named c = record empty_series {
  labels =
      record { name = 101 ∷ []; value = c ∷ [] }
      ∷ record { name = 95 ∷ 95 ∷ 110 ∷ 97 ∷ 109 ∷ 101 ∷ 95 ∷ 95 ∷ []; value = 117 ∷ [] }
      ∷ [];
}

abbrev request : WriteRequest
request = record { timeseries = named 97 ∷ named 98 ∷ []; metadata = [] }

key_of_series :
    build_key (new_shard_key_builder ((120 ∷ []) ∷ (101 ∷ []) ∷ [])) (named 97)
    ≡ 117 ∷ 124 ∷ 101 ∷ 61 ∷ 97 ∷ []
unfolding build_key keys_of label_in_map new_shard_key_builder sort_keys insert_key label_value
    bytes_eqb bytes_ltb
key_of_series = refl

abbrev endpoint : String
endpoint = "a"

a_is_named : endpoint ≢ ""
a_is_named e = cc

split-those_example :
    (series_in (
        lookup endpoint
          (split weigh text (record { sorted_keys = (101 ∷ []) ∷ [] }) ring (some request)))
      ≡ those weigh text
          (record { sorted_keys = (101 ∷ []) ∷ [] })
          ring
          endpoint
          request.timeseries)
    × ((metadata_in (
            lookup endpoint
              (split weigh text (record { sorted_keys = (101 ∷ []) ∷ [] }) ring (some request)))
          ≡ none)
        ⊎ (metadata_in (
              lookup endpoint
                (split weigh text (record { sorted_keys = (101 ∷ []) ∷ [] }) ring (some request)))
            ≡ some []))
split-those_example =
    split-those weigh text (record { sorted_keys = (101 ∷ []) ∷ [] }) ring request endpoint refl
      a_is_named
