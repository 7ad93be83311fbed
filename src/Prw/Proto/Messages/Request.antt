-- ===== src/Prw/Proto/Messages/Request.antt =====
-- Time series and whole requests.
use metrics_governor.Prelude.{ℕ, List, [], ◌∷◌, ◌++◌, ◌==◌, if◌then◌else◌}
use metrics_governor.Prw.Proto.Loop.{
  Decoded, ok, and_then, Switch, skipped, expects, on_bytes, unmarshal,
}
use metrics_governor.Prw.Proto.Messages.{TimeSeries, WriteRequest, repeated}
use metrics_governor.Prw.Proto.Messages.Small.{
  marshal_label, unmarshal_label, marshal_sample, unmarshal_sample, marshal_exemplar,
  unmarshal_exemplar, marshal_metadata, unmarshal_metadata,
}
use metrics_governor.Prw.Proto.Messages.Native.{marshal_histogram, unmarshal_histogram}

unfoldable pub marshal_series : TimeSeries → List ℕ
marshal_series ts =
    repeated marshal_label 1 ts.labels
    ++ (repeated marshal_sample 2 ts.samples
        ++ (repeated marshal_exemplar 3 ts.exemplars ++ repeated marshal_histogram 4 ts.histograms))

abbrev pub empty_series : TimeSeries
empty_series = record { labels = []; samples = []; exemplars = []; histograms = [] }

unfoldable pub switch_series : Switch TimeSeries
switch_series ts field_num wire_type bytes =
    if field_num == 1
    then expects 2 wire_type (
        on_bytes
          (λ b. and_then (unmarshal_label b) (λ x. ok (record ts { labels = ts.labels ++ x ∷ [] })))
          bytes)
    else if field_num == 2
    then expects 2 wire_type (
        on_bytes
          (λ b.
            and_then (unmarshal_sample b) (λ x. ok (record ts { samples = ts.samples ++ x ∷ [] })))
          bytes)
    else if field_num == 3
    then expects 2 wire_type (
        on_bytes
          (λ b.
            and_then (unmarshal_exemplar b)
              (λ x. ok (record ts { exemplars = ts.exemplars ++ x ∷ [] })))
          bytes)
    else if field_num == 4
    then expects 2 wire_type (
        on_bytes
          (λ b.
            and_then (unmarshal_histogram b)
              (λ x. ok (record ts { histograms = ts.histograms ++ x ∷ [] })))
          bytes)
    else skipped ts wire_type bytes

unfoldable pub unmarshal_series : List ℕ → Decoded TimeSeries
unmarshal_series bytes = unmarshal switch_series empty_series bytes

unfoldable pub marshal_request : WriteRequest → List ℕ
marshal_request req =
    repeated marshal_series 1 req.timeseries ++ repeated marshal_metadata 3 req.metadata

abbrev pub empty_request : WriteRequest
empty_request = record { timeseries = []; metadata = [] }

unfoldable pub switch_request : Switch WriteRequest
switch_request req field_num wire_type bytes =
    if field_num == 1
    then expects 2 wire_type (
        on_bytes
          (λ b.
            and_then (unmarshal_series b)
              (λ x. ok (record req { timeseries = req.timeseries ++ x ∷ [] })))
          bytes)
    else if field_num == 3
    then expects 2 wire_type (
        on_bytes
          (λ b.
            and_then (unmarshal_metadata b)
              (λ x. ok (record req { metadata = req.metadata ++ x ∷ [] })))
          bytes)
    else skipped req wire_type bytes

unfoldable pub unmarshal_request : List ℕ → Decoded WriteRequest
unmarshal_request bytes = unmarshal switch_request empty_request bytes
