-- ===== src/Prw/Proto/Messages/Termination.antt =====
-- The termination of the decoders of internal/prw/proto.go.
use metrics_governor.Prelude.{ℕ, ◌≢◌, subst, List, [], ◌∷◌, ◌++◌, length, ◌==◌}
use metrics_governor.Prw.Proto.Wire.{unmarshal_signed_varints, unmarshal_fixed64s}
use metrics_governor.Prw.Proto.Loop.{ok, stuck, and_then}
use metrics_governor.Prw.Proto.Loop.Runs.{
  IsShortening, Ends, unmarshal-Ends, skipped-Shortens, on_varint-Shortens,
  on_signed_varint-Shortens, on_fixed64-Shortens, on_bytes-Shortens, expects-Shortens,
  case-Shortens, ok-Ends, and_then_ok-Ends,
}
use metrics_governor.Prw.Proto.Messages.{low_32}
use metrics_governor.Prw.Proto.Messages.Small.{
  switch_label, unmarshal_label, empty_label, switch_sample, unmarshal_sample, empty_sample,
  switch_exemplar, unmarshal_exemplar, empty_exemplar, switch_metadata, unmarshal_metadata,
  empty_metadata,
}
use metrics_governor.Prw.Proto.Messages.Native.{
  switch_span, unmarshal_span, empty_span, switch_buckets, switch_histogram, unmarshal_histogram,
  empty_histogram,
}
use metrics_governor.Prw.Proto.Messages.Request.{
  switch_series, unmarshal_series, empty_series, switch_request, unmarshal_request, empty_request,
}

pub switch_label-IsShortening : IsShortening switch_label
unfolding switch_label
switch_label-IsShortening x f w bytes =
    case-Shortens (length bytes) (f == 1) _ _
      (expects-Shortens (length bytes) 2 w _
        (on_bytes-Shortens (λ b. ok (record x { name = b })) bytes (λ b. ok-Ends _)))
      (case-Shortens (length bytes) (f == 2) _ _
        (expects-Shortens (length bytes) 2 w _
          (on_bytes-Shortens (λ b. ok (record x { value = b })) bytes (λ b. ok-Ends _)))
        (skipped-Shortens x w bytes))

pub unmarshal_label-Ends : (bytes : List ℕ) → Ends (unmarshal_label bytes)
unfolding unmarshal_label
unmarshal_label-Ends bytes = unmarshal-Ends switch_label switch_label-IsShortening empty_label bytes

pub switch_sample-IsShortening : IsShortening switch_sample
unfolding switch_sample
switch_sample-IsShortening x f w bytes =
    case-Shortens (length bytes) (f == 1) _ _
      (expects-Shortens (length bytes) 1 w _
        (on_fixed64-Shortens (λ v. record x { value = v }) bytes))
      (case-Shortens (length bytes) (f == 2) _ _
        (expects-Shortens (length bytes) 0 w _
          (on_varint-Shortens (λ v. record x { timestamp = v }) bytes))
        (skipped-Shortens x w bytes))

pub unmarshal_sample-Ends : (bytes : List ℕ) → Ends (unmarshal_sample bytes)
unfolding unmarshal_sample
unmarshal_sample-Ends bytes =
    unmarshal-Ends switch_sample switch_sample-IsShortening empty_sample bytes

pub switch_exemplar-IsShortening : IsShortening switch_exemplar
unfolding switch_exemplar
switch_exemplar-IsShortening x f w bytes =
    case-Shortens (length bytes) (f == 1) _ _
      (expects-Shortens (length bytes) 2 w _ (
        on_bytes-Shortens
          (λ b. and_then (unmarshal_label b) (λ y. ok (record x { labels = x.labels ++ y ∷ [] })))
          bytes
          (λ b.
            and_then_ok-Ends (unmarshal_label b) (λ y. record x { labels = x.labels ++ y ∷ [] })
              (unmarshal_label-Ends b))))
      (case-Shortens (length bytes) (f == 2) _ _
        (expects-Shortens (length bytes) 1 w _
          (on_fixed64-Shortens (λ v. record x { value = v }) bytes))
        (case-Shortens (length bytes) (f == 3) _ _
          (expects-Shortens (length bytes) 0 w _
            (on_varint-Shortens (λ v. record x { timestamp = v }) bytes))
          (skipped-Shortens x w bytes)))

pub unmarshal_exemplar-Ends : (bytes : List ℕ) → Ends (unmarshal_exemplar bytes)
unfolding unmarshal_exemplar
unmarshal_exemplar-Ends bytes =
    unmarshal-Ends switch_exemplar switch_exemplar-IsShortening empty_exemplar bytes

pub switch_metadata-IsShortening : IsShortening switch_metadata
unfolding switch_metadata
switch_metadata-IsShortening x f w bytes =
    case-Shortens (length bytes) (f == 1) _ _
      (on_varint-Shortens (λ v. record x { type_ = low_32 v }) bytes)
      (case-Shortens (length bytes) (f == 2) _ _
        (expects-Shortens (length bytes) 2 w _ (
          on_bytes-Shortens (λ b. ok (record x { metric_family_name = b })) bytes (λ b. ok-Ends _)))
        (case-Shortens (length bytes) (f == 3) _ _
          (expects-Shortens (length bytes) 2 w _
            (on_bytes-Shortens (λ b. ok (record x { help = b })) bytes (λ b. ok-Ends _)))
          (case-Shortens (length bytes) (f == 4) _ _
            (expects-Shortens (length bytes) 2 w _
              (on_bytes-Shortens (λ b. ok (record x { unit = b })) bytes (λ b. ok-Ends _)))
            (skipped-Shortens x w bytes))))

pub unmarshal_metadata-Ends : (bytes : List ℕ) → Ends (unmarshal_metadata bytes)
unfolding unmarshal_metadata
unmarshal_metadata-Ends bytes =
    unmarshal-Ends switch_metadata switch_metadata-IsShortening empty_metadata bytes

pub switch_span-IsShortening : IsShortening switch_span
unfolding switch_span
switch_span-IsShortening x f w bytes =
    case-Shortens (length bytes) (f == 1) _ _
      (expects-Shortens (length bytes) 0 w _
        (on_signed_varint-Shortens (λ v. record x { offset = low_32 v }) bytes))
      (case-Shortens (length bytes) (f == 2) _ _
        (expects-Shortens (length bytes) 0 w _
          (on_varint-Shortens (λ v. record x { length_ = low_32 v }) bytes))
        (skipped-Shortens x w bytes))

pub unmarshal_span-Ends : (bytes : List ℕ) → Ends (unmarshal_span bytes)
unfolding unmarshal_span
unmarshal_span-Ends bytes = unmarshal-Ends switch_span switch_span-IsShortening empty_span bytes

pub switch_buckets-IsShortening : IsShortening switch_buckets
unfolding switch_buckets
switch_buckets-IsShortening x f w bytes =
    case-Shortens (length bytes) (f == 8) _ _
      (expects-Shortens (length bytes) 2 w _ (
        on_bytes-Shortens
          (λ b.
            and_then (unmarshal_span b)
              (λ y. ok (record x { negative_spans = x.negative_spans ++ y ∷ [] })))
          bytes
          (λ b.
            and_then_ok-Ends (unmarshal_span b)
              (λ y. record x { negative_spans = x.negative_spans ++ y ∷ [] })
              (unmarshal_span-Ends b))))
      (case-Shortens (length bytes) (f == 9) _ _
        (expects-Shortens (length bytes) 2 w _ (
          on_bytes-Shortens (λ b. ok (record x { negative_deltas = unmarshal_signed_varints b }))
            bytes (λ b. ok-Ends _)))
        (case-Shortens (length bytes) (f == 10) _ _
          (expects-Shortens (length bytes) 2 w _ (
            on_bytes-Shortens (λ b. ok (record x { negative_counts = unmarshal_fixed64s b })) bytes
              (λ b. ok-Ends _)))
          (case-Shortens (length bytes) (f == 11) _ _
            (expects-Shortens (length bytes) 2 w _ (
              on_bytes-Shortens
                (λ b.
                  and_then (unmarshal_span b)
                    (λ y. ok (record x { positive_spans = x.positive_spans ++ y ∷ [] })))
                bytes
                (λ b.
                  and_then_ok-Ends (unmarshal_span b)
                    (λ y. record x { positive_spans = x.positive_spans ++ y ∷ [] })
                    (unmarshal_span-Ends b))))
            (case-Shortens (length bytes) (f == 12) _ _
              (expects-Shortens (length bytes) 2 w _ (
                on_bytes-Shortens
                  (λ b. ok (record x { positive_deltas = unmarshal_signed_varints b })) bytes
                  (λ b. ok-Ends _)))
              (case-Shortens (length bytes) (f == 13) _ _
                (expects-Shortens (length bytes) 2 w _ (
                  on_bytes-Shortens (λ b. ok (record x { positive_counts = unmarshal_fixed64s b }))
                    bytes (λ b. ok-Ends _)))
                (case-Shortens (length bytes) (f == 14) _ _
                  (on_varint-Shortens (λ v. record x { reset_hint = low_32 v }) bytes)
                  (case-Shortens (length bytes) (f == 15) _ _
                    (on_varint-Shortens (λ v. record x { timestamp = v }) bytes)
                    (skipped-Shortens x w bytes))))))))

pub switch_histogram-IsShortening : IsShortening switch_histogram
unfolding switch_histogram
switch_histogram-IsShortening x f w bytes =
    case-Shortens (length bytes) (f == 1) _ _
      (on_varint-Shortens (λ v. record x { count = v }) bytes)
      (case-Shortens (length bytes) (f == 2) _ _
        (on_fixed64-Shortens (λ v. record x { count_float = v }) bytes)
        (case-Shortens (length bytes) (f == 3) _ _
          (on_fixed64-Shortens (λ v. record x { sum = v }) bytes)
          (case-Shortens (length bytes) (f == 4) _ _
            (on_signed_varint-Shortens (λ v. record x { schema = low_32 v }) bytes)
            (case-Shortens (length bytes) (f == 5) _ _
              (on_fixed64-Shortens (λ v. record x { zero_threshold = v }) bytes)
              (case-Shortens (length bytes) (f == 6) _ _
                (on_varint-Shortens (λ v. record x { zero_count = v }) bytes)
                (case-Shortens (length bytes) (f == 7) _ _
                  (on_fixed64-Shortens (λ v. record x { zero_count_float = v }) bytes)
                  (switch_buckets-IsShortening x f w bytes)))))))

pub unmarshal_histogram-Ends : (bytes : List ℕ) → Ends (unmarshal_histogram bytes)
unfolding unmarshal_histogram
unmarshal_histogram-Ends bytes =
    unmarshal-Ends switch_histogram switch_histogram-IsShortening empty_histogram bytes

pub switch_series-IsShortening : IsShortening switch_series
unfolding switch_series
switch_series-IsShortening x f w bytes =
    case-Shortens (length bytes) (f == 1) _ _
      (expects-Shortens (length bytes) 2 w _ (
        on_bytes-Shortens
          (λ b. and_then (unmarshal_label b) (λ y. ok (record x { labels = x.labels ++ y ∷ [] })))
          bytes
          (λ b.
            and_then_ok-Ends (unmarshal_label b) (λ y. record x { labels = x.labels ++ y ∷ [] })
              (unmarshal_label-Ends b))))
      (case-Shortens (length bytes) (f == 2) _ _
        (expects-Shortens (length bytes) 2 w _ (
          on_bytes-Shortens
            (λ b.
              and_then (unmarshal_sample b) (λ y. ok (record x { samples = x.samples ++ y ∷ [] })))
            bytes
            (λ b.
              and_then_ok-Ends (unmarshal_sample b)
                (λ y. record x { samples = x.samples ++ y ∷ [] }) (unmarshal_sample-Ends b))))
        (case-Shortens (length bytes) (f == 3) _ _
          (expects-Shortens (length bytes) 2 w _ (
            on_bytes-Shortens
              (λ b.
                and_then (unmarshal_exemplar b)
                  (λ y. ok (record x { exemplars = x.exemplars ++ y ∷ [] })))
              bytes
              (λ b.
                and_then_ok-Ends (unmarshal_exemplar b)
                  (λ y. record x { exemplars = x.exemplars ++ y ∷ [] })
                  (unmarshal_exemplar-Ends b))))
          (case-Shortens (length bytes) (f == 4) _ _
            (expects-Shortens (length bytes) 2 w _ (
              on_bytes-Shortens
                (λ b.
                  and_then (unmarshal_histogram b)
                    (λ y. ok (record x { histograms = x.histograms ++ y ∷ [] })))
                bytes
                (λ b.
                  and_then_ok-Ends (unmarshal_histogram b)
                    (λ y. record x { histograms = x.histograms ++ y ∷ [] })
                    (unmarshal_histogram-Ends b))))
            (skipped-Shortens x w bytes))))

pub unmarshal_series-Ends : (bytes : List ℕ) → Ends (unmarshal_series bytes)
unfolding unmarshal_series
unmarshal_series-Ends bytes =
    unmarshal-Ends switch_series switch_series-IsShortening empty_series bytes

pub switch_request-IsShortening : IsShortening switch_request
unfolding switch_request
switch_request-IsShortening x f w bytes =
    case-Shortens (length bytes) (f == 1) _ _
      (expects-Shortens (length bytes) 2 w _ (
        on_bytes-Shortens
          (λ b.
            and_then (unmarshal_series b)
              (λ y. ok (record x { timeseries = x.timeseries ++ y ∷ [] })))
          bytes
          (λ b.
            and_then_ok-Ends (unmarshal_series b)
              (λ y. record x { timeseries = x.timeseries ++ y ∷ [] }) (unmarshal_series-Ends b))))
      (case-Shortens (length bytes) (f == 3) _ _
        (expects-Shortens (length bytes) 2 w _ (
          on_bytes-Shortens
            (λ b.
              and_then (unmarshal_metadata b)
                (λ y. ok (record x { metadata = x.metadata ++ y ∷ [] })))
            bytes
            (λ b.
              and_then_ok-Ends (unmarshal_metadata b)
                (λ y. record x { metadata = x.metadata ++ y ∷ [] }) (unmarshal_metadata-Ends b))))
        (skipped-Shortens x w bytes))

pub unmarshal_request-Ends : (bytes : List ℕ) → Ends (unmarshal_request bytes)
unfolding unmarshal_request
unmarshal_request-Ends bytes =
    unmarshal-Ends switch_request switch_request-IsShortening empty_request bytes

-- Unmarshalling of a request ends on all bytes: the fuel of its loops, and of those of the messages
-- in it, is enough.
pub unmarshal_request_returns : (bytes : List ℕ) → unmarshal_request bytes ≢ stuck
unfolding Ends
unmarshal_request_returns bytes e = subst Ends e (unmarshal_request-Ends bytes)
