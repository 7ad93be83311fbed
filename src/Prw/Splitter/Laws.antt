-- ===== src/Prw/Splitter/Laws.antt =====
-- Where the splitter puts the series of a request.
use metrics_governor.Prelude.{
  ℕ, ◌≡◌, ◌≢◌, ◌⊎◌, inl, refl, sym, true, false, List, [], ◌∷◌, ◌++◌, append_assoc, append-nil,
  Option, none, some, String, length, ◌==◌, if◌then◌else◌, arith,
}
use metrics_governor.Prelude.Eq.{string_eq}
use metrics_governor.Prelude.Map.{Map, lookup, insert, lookup-insert}
use metrics_governor.Prw.Proto.Messages.{TimeSeries, MetricMetadata, WriteRequest}
use metrics_governor.Sharding.HashRing.{HashRing, is_empty}
use metrics_governor.Prw.Splitter.{
  ShardKeyBuilder, route, request_or_new, add_series, set_metadata, split_series, split_request,
  split,
}

-- The request of an endpoint, empty where there is none.
unfoldable pub series_in : Option WriteRequest → List TimeSeries
series_in none = []
series_in (some req) = req.timeseries

unfoldable pub metadata_in : Option WriteRequest → Option (List MetricMetadata)
metadata_in none = none
metadata_in (some req) = some req.metadata

series_in-or_new : (o : Option WriteRequest) → (request_or_new o).timeseries ≡ series_in o
unfolding request_or_new series_in
series_in-or_new none = refl
series_in-or_new (some req) = refl

series_in-add_series :
    (e j : String) (ts : TimeSeries) (m : Map String WriteRequest)
    → series_in (lookup j (add_series e ts m))
      ≡ (if string_eq.beq e j then series_in (lookup j m) ++ ts ∷ [] else series_in (lookup j m))
unfolding add_series series_in
series_in-add_series e j ts m =
    let req = request_or_new (lookup e m) in
    ground (
      arith,
      string_eq.beq_iff e j,
      series_in-or_new (lookup e m),
      lookup-insert e j (record req { timeseries = req.timeseries ++ ts ∷ [] }) m,
    )

series_in-set_metadata :
    (md : List MetricMetadata) (j : String) (m : Map String WriteRequest)
    → series_in (lookup j (set_metadata md m)) ≡ series_in (lookup j m)
unfolding set_metadata series_in
series_in-set_metadata md j [] = refl
series_in-set_metadata md j ((e, req) ∷ m) = ground (arith, series_in-set_metadata md j m)

series_in_nothing : series_in none ≡ []
unfolding series_in
series_in_nothing = refl

metadata_in_nothing : metadata_in none ≡ none
unfolding metadata_in
metadata_in_nothing = refl

empty_metadata : (md : List MetricMetadata) → (length md == 0) ≡ true → md ≡ []
empty_metadata [] h = refl
empty_metadata (x ∷ md) h = absurd (ground arith)

-- Every request has the metadata.
abbrev HaveMetadata : List MetricMetadata → Map String WriteRequest → Type 0
HaveMetadata md [] = Unit
HaveMetadata md ((e, req) ∷ m) = (req.metadata ≡ md) × HaveMetadata md m

set_metadata-HaveMetadata :
    (md : List MetricMetadata) (m : Map String WriteRequest) → HaveMetadata md (set_metadata md m)
unfolding set_metadata
set_metadata-HaveMetadata md [] = tt
set_metadata-HaveMetadata md ((e, req) ∷ m) = (refl, set_metadata-HaveMetadata md m)

lookup-HaveMetadata :
    (md : List MetricMetadata) (j : String) (m : Map String WriteRequest)
    → HaveMetadata md m
    → (metadata_in (lookup j m) ≡ none) ⊎ (metadata_in (lookup j m) ≡ some md)
unfolding metadata_in
lookup-HaveMetadata md j [] h = inl refl
lookup-HaveMetadata md j ((e, req) ∷ m) h = ground (arith, h.0, lookup-HaveMetadata md j m h.1)

insert-HaveMetadata :
    (md : List MetricMetadata) (j : String) (req : WriteRequest) (m : Map String WriteRequest)
    → req.metadata ≡ md
    → HaveMetadata md m
    → HaveMetadata md (insert j req m)
insert-HaveMetadata md j req [] p h = (p, tt)
insert-HaveMetadata md j req ((e, x) ∷ m) p h =
    ground (arith, p, h.0, h.1, insert-HaveMetadata md j req m p h.1)

or_new-metadata :
    (o : Option WriteRequest)
    → (metadata_in o ≡ none) ⊎ (metadata_in o ≡ some [])
    → (request_or_new o).metadata ≡ []
unfolding request_or_new metadata_in
or_new-metadata none h = refl
or_new-metadata (some req) h = ground (arith, h)

add_series-HaveMetadata :
    (e : String) (ts : TimeSeries) (m : Map String WriteRequest)
    → HaveMetadata [] m
    → HaveMetadata [] (add_series e ts m)
unfolding add_series
add_series-HaveMetadata e ts m h =
    let req = request_or_new (lookup e m) in
    insert-HaveMetadata [] e (record req { timeseries = req.timeseries ++ ts ∷ [] }) m
      (or_new-metadata (lookup e m) (lookup-HaveMetadata [] e m h)) h

module _ (hash : String → ℕ) (text : List ℕ → String) (key_builder : ShardKeyBuilder)
    (ring : HashRing) where
  -- The series that go to the endpoint, in order.
  unfoldable pub those : String → List TimeSeries → List TimeSeries
  those j [] = []
  those j (ts ∷ tss) =
      let rest = those j tss in
      if string_eq.beq (route hash text key_builder ring ts) j then ts ∷ rest else rest

  empty_series : (j : String) (tss : List TimeSeries) → (length tss == 0) ≡ true → those j tss ≡ []
  unfolding those
  empty_series j [] h = refl
  empty_series j (ts ∷ tss) h = absurd (ground arith)

  series_in-split_series :
      (j : String) (tss : List TimeSeries) (m : Map String WriteRequest)
      → j ≢ ""
      → series_in (lookup j (split_series hash text key_builder ring tss m))
        ≡ series_in (lookup j m) ++ those j tss
  unfolding split_series those
  series_in-split_series j [] m h = sym (append-nil (series_in (lookup j m)))
  series_in-split_series j (ts ∷ tss) m h =
      let e = route hash text key_builder ring ts in
      ground (
        arith,
        h,
        string_eq.beq_iff e j,
        string_eq.beq_iff e "",
        series_in-add_series e j ts m,
        append_assoc (series_in (lookup j m)) (ts ∷ []) (those j tss),
        series_in-split_series j tss m h,
        series_in-split_series j tss (add_series e ts m) h,
      )

  split_series-HaveMetadata :
      (tss : List TimeSeries) (m : Map String WriteRequest)
      → HaveMetadata [] m
      → HaveMetadata [] (split_series hash text key_builder ring tss m)
  unfolding split_series
  split_series-HaveMetadata [] m h = h
  split_series-HaveMetadata (ts ∷ tss) m h =
      let e = route hash text key_builder ring ts in
      ground (
        arith,
        split_series-HaveMetadata tss m h,
        split_series-HaveMetadata tss (add_series e ts m) (add_series-HaveMetadata e ts m h),
      )

  -- With a ring that is not empty, the request of an endpoint that is not the empty name has exactly the series whose
  -- shard key the ring gives to it, whole and in the order of the request, and where there is such a request it
  -- has all the metadata.
  pub split-those :
      (req : WriteRequest) (j : String)
      → is_empty ring ≡ false
      → j ≢ ""
      → (series_in (lookup j (split hash text key_builder ring (some req)))
          ≡ those j req.timeseries)
        × ((metadata_in (lookup j (split hash text key_builder ring (some req))) ≡ none)
            ⊎ (metadata_in (lookup j (split hash text key_builder ring (some req)))
                ≡ some req.metadata))
  unfolding split split_request
  split-those req j r h =
      let m = split_series hash text key_builder ring req.timeseries [] in
      let s = series_in-split_series j req.timeseries [] h in
      let d = split_series-HaveMetadata req.timeseries [] tt in
      (
        ground (
          arith,
          s,
          empty_series j req.timeseries,
          series_in_nothing,
          series_in-set_metadata req.metadata j m,
        ),
        ground (
          arith,
          empty_metadata req.metadata,
          metadata_in_nothing,
          lookup-HaveMetadata [] j m d,
          lookup-HaveMetadata req.metadata j (set_metadata req.metadata m)
              (set_metadata-HaveMetadata req.metadata m),
        ),
      )
