-- ===== src/Prw/Splitter.antt =====
-- The shard keys and the splitter of remote write: internal/prw/shardkey.go and internal/prw/splitter.go. A key is a list of bytes,
-- and `text` is the string of bytes, as the hash ring takes it. Interning keeps the content of strings and is
-- left out. The map of requests is an association list, and a nil request is `none`.
pub mod Laws
mod Tests
use metrics_governor.Prelude.{
  ℕ, Bool, true, false, List, [], ◌∷◌, ◌++◌, Option, none, some, String, length, ◌==◌,
  if◌then◌else◌,
}
use metrics_governor.Prelude.Eq.{string_eq}
use metrics_governor.Prelude.Map.{Map, lookup, insert}
use metrics_governor.Prw.Proto.Messages.{Label, TimeSeries, MetricMetadata, WriteRequest}
use metrics_governor.Prw.Series.{metric_name, bytes_eqb, bytes_ltb}
use metrics_governor.Sharding.HashRing.{HashRing, get_endpoint, is_empty}

-- The labels of the configuration, in order.
pub record ShardKeyBuilder : Type 0 where
  pub sorted_keys : List (List ℕ)

unfoldable pub insert_key : List ℕ → List (List ℕ) → List (List ℕ)
insert_key k [] = k ∷ []
insert_key k (j ∷ js) = if bytes_ltb j k then j ∷ insert_key k js else k ∷ j ∷ js

unfoldable pub sort_keys : List (List ℕ) → List (List ℕ)
sort_keys [] = []
sort_keys (k ∷ ks) = insert_key k (sort_keys ks)

unfoldable pub new_shard_key_builder : List (List ℕ) → ShardKeyBuilder
new_shard_key_builder labels = record { sorted_keys = sort_keys labels }

-- A lookup in `labelMap`, where a later label has overwritten an earlier one of its name.
unfoldable pub label_in_map : List ℕ → List Label → Option (List ℕ)
label_in_map key [] = none
label_in_map key (l ∷ ls) = elim (label_in_map key ls) [
  | some v ↦ some v
  | none ↦ if bytes_eqb l.name key then some l.value else none
]

-- The bytes of `|` and of `=`.
unfoldable pub keys_of : List (List ℕ) → List Label → List ℕ
keys_of [] ls = []
keys_of (key ∷ keys) ls =
    let rest = keys_of keys ls in
    elim (label_in_map key ls) [
      | none ↦ rest
      | some value ↦ if length value == 0 then rest else 124 ∷ (key ++ (61 ∷ (value ++ rest)))
    ]

unfoldable pub build_key : ShardKeyBuilder → TimeSeries → List ℕ
build_key b ts = metric_name ts ++ keys_of b.sorted_keys ts.labels

-- The request of an endpoint, or a new one.
unfoldable pub request_or_new : Option WriteRequest → WriteRequest
request_or_new none = record { timeseries = []; metadata = [] }
request_or_new (some req) = req

unfoldable pub add_series : String → TimeSeries → Map String WriteRequest → Map String WriteRequest
add_series endpoint ts result =
    let req = request_or_new (lookup endpoint result) in
    insert endpoint (record req { timeseries = req.timeseries ++ ts ∷ [] }) result

-- The loop that gives every request the metadata.
unfoldable pub set_metadata :
    List MetricMetadata → Map String WriteRequest → Map String WriteRequest
set_metadata metadata [] = []
set_metadata metadata ((endpoint, req) ∷ result) =
    (endpoint, record req { metadata = metadata }) ∷ set_metadata metadata result

module _ (hash : String → ℕ) (text : List ℕ → String) (key_builder : ShardKeyBuilder)
    (ring : HashRing) where
  abbrev pub route : TimeSeries → String
  route ts = get_endpoint hash ring (text (build_key key_builder ts))

  unfoldable pub split_series : List TimeSeries → Map String WriteRequest → Map String WriteRequest
  split_series [] result = result
  split_series (ts ∷ tss) result =
      if string_eq.beq (route ts) ""
      then split_series tss result
      else split_series tss (add_series (route ts) ts result)

  unfoldable pub split_request : WriteRequest → Map String WriteRequest
  split_request req =
      if length req.timeseries == 0
      then []
      else if is_empty ring
      then []
      else (let result = split_series req.timeseries [] in
          if length req.metadata == 0 then result else set_metadata req.metadata result)

  -- `Split`; a nil map has no keys.
  unfoldable pub split : Option WriteRequest → Map String WriteRequest
  split none = []
  split (some req) = split_request req

  -- `GetEndpointForTimeSeries`
  unfoldable pub get_endpoint_for_time_series : Option TimeSeries → String
  get_endpoint_for_time_series none = ""
  get_endpoint_for_time_series (some ts) = if is_empty ring then "" else route ts
