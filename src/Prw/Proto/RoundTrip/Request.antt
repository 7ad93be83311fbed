-- ===== src/Prw/Proto/RoundTrip/Request.antt =====
-- Time series and whole requests.
use metrics_governor.Prelude.{◌≡◌, refl, [], ◌++◌, length, All, All-imp, arith}
use metrics_governor.Prw.Proto.Wire.RoundTrip.{IsU64}
use metrics_governor.Prw.Proto.Loop.{ok}
use metrics_governor.Prw.Proto.Loop.Runs.{Runs-trans, unmarshal-Runs}
use metrics_governor.Prw.Proto.Loop.Fields.{repeated-Runs}
use metrics_governor.Prw.Proto.Messages.{TimeSeries, WriteRequest, repeated}
use metrics_governor.Prw.Proto.Messages.Small.{
  marshal_label, marshal_sample, unmarshal_sample, marshal_exemplar, unmarshal_exemplar,
  marshal_metadata, unmarshal_metadata,
}
use metrics_governor.Prw.Proto.Messages.Native.{marshal_histogram, unmarshal_histogram}
use metrics_governor.Prw.Proto.Messages.Request.{
  marshal_series, switch_series, unmarshal_series, empty_series, marshal_request, switch_request,
  unmarshal_request, empty_request,
}
use metrics_governor.Prw.Proto.Messages.Termination.{
  switch_series-IsShortening, switch_request-IsShortening,
}
use metrics_governor.Prw.Proto.RoundTrip.{
  last-Runs, front_IsU64, back_IsU64, labels-Runs, IsEncodableSample,
  unmarshal_sample-marshal_sample, IsEncodableExemplar, unmarshal_exemplar-marshal_exemplar,
  IsEncodableMetadata, unmarshal_metadata-marshal_metadata,
}
use metrics_governor.Prw.Proto.RoundTrip.Scalars.{IsEncodableHistogram}
use metrics_governor.Prw.Proto.RoundTrip.Native.{unmarshal_histogram-marshal_histogram}

abbrev pub IsEncodableSeries : TimeSeries → Type 0
IsEncodableSeries ts =
    All IsEncodableSample ts.samples
    × All IsEncodableExemplar ts.exemplars
    × All IsEncodableHistogram ts.histograms

unmarshal_series-marshal_series :
    (ts : TimeSeries)
    → IsEncodableSeries ts
    → IsU64 (length (marshal_series ts))
    → unmarshal_series (marshal_series ts) ≡ ok ts
unfolding marshal_series unmarshal_series switch_series
unmarshal_series-marshal_series ts i short =
    let label_fields = repeated marshal_label 1 ts.labels in
    let sample_fields = repeated marshal_sample 2 ts.samples in
    let exemplar_fields = repeated marshal_exemplar 3 ts.exemplars in
    let histogram_fields = repeated marshal_histogram 4 ts.histograms in
    let bytes_3 = exemplar_fields ++ histogram_fields in
    let bytes_2 = sample_fields ++ bytes_3 in
    let short_2 = back_IsU64 label_fields bytes_2 short in
    let short_3 = back_IsU64 sample_fields bytes_3 short_2 in
    let labelled : TimeSeries = record empty_series { labels = ts.labels } in
    let sampled : TimeSeries = record labelled { samples = ts.samples } in
    let exampled : TimeSeries = record sampled { exemplars = ts.exemplars } in
    unmarshal-Runs switch_series empty_series ts (label_fields ++ bytes_2)
      switch_series-IsShortening
      (Runs-trans
        (labels-Runs (λ ls. record empty_series { labels = ls }) ts.labels bytes_2
          (front_IsU64 label_fields bytes_2 short) (λ zs bytes. refl))
        (Runs-trans
          (repeated-Runs marshal_sample unmarshal_sample (λ ss. record labelled { samples = ss }) 2
            [] ts.samples bytes_3 (omega arith) (front_IsU64 sample_fields bytes_3 short_2)
            (λ zs bytes. refl)
            (All-imp ts.samples (λ s e h. unmarshal_sample-marshal_sample s e) i.0))
          (Runs-trans
            (repeated-Runs marshal_exemplar unmarshal_exemplar
              (λ es. record sampled { exemplars = es }) 3 [] ts.exemplars histogram_fields
              (omega arith) (front_IsU64 exemplar_fields histogram_fields short_3)
              (λ zs bytes. refl) (All-imp ts.exemplars unmarshal_exemplar-marshal_exemplar i.1))
            (last-Runs histogram_fields (
              repeated-Runs marshal_histogram unmarshal_histogram
                (λ hs. record exampled { histograms = hs }) 4 [] ts.histograms [] (omega arith)
                (back_IsU64 exemplar_fields histogram_fields short_3) (λ zs bytes. refl)
                (All-imp ts.histograms unmarshal_histogram-marshal_histogram i.2))))))

-- The ranges of the source's integer types, and no -0.0 where a zero is left out.
abbrev pub IsEncodable : WriteRequest → Type 0
IsEncodable req = All IsEncodableSeries req.timeseries × All IsEncodableMetadata req.metadata

-- A request whose integers are in the range of their types, whose histograms have no field that is
-- -0.0 and whose bytes number below 2^64 is read back, whole and in order, from the bytes it is marshalled to.
pub unmarshal_request-marshal_request :
    (req : WriteRequest)
    → IsEncodable req
    → IsU64 (length (marshal_request req))
    → unmarshal_request (marshal_request req) ≡ ok req
unfolding marshal_request unmarshal_request switch_request
unmarshal_request-marshal_request req i short =
    let series_fields = repeated marshal_series 1 req.timeseries in
    let metadata_fields = repeated marshal_metadata 3 req.metadata in
    let filled : WriteRequest = record empty_request { timeseries = req.timeseries } in
    unmarshal-Runs switch_request empty_request req (series_fields ++ metadata_fields)
      switch_request-IsShortening
      (Runs-trans
        (repeated-Runs marshal_series unmarshal_series
          (λ ts. record empty_request { timeseries = ts }) 1 [] req.timeseries metadata_fields
          (omega arith) (front_IsU64 series_fields metadata_fields short) (λ zs bytes. refl)
          (All-imp req.timeseries unmarshal_series-marshal_series i.0))
        (last-Runs metadata_fields (
          repeated-Runs marshal_metadata unmarshal_metadata (λ ms. record filled { metadata = ms })
            3 [] req.metadata [] (omega arith) (back_IsU64 series_fields metadata_fields short)
            (λ zs bytes. refl) (All-imp req.metadata unmarshal_metadata-marshal_metadata i.1))))
