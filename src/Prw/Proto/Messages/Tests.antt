-- ===== src/Prw/Proto/Messages/Tests.antt =====
-- Runs of the codec on small requests.
use metrics_governor.Prelude.{◌^◌, ◌<◌, ◌≡◌, ◌≢◌, refl, [], ◌∷◌, ◌++◌, none, some, arith}
use metrics_governor.Prw.Proto.Wire.{
  varint_groups, varint, varint_from, consume_varint, consume_tag, fixed64, tag_of, tag_varint,
  tag_varint_signed, tag_fixed64, tag_length_delim, marshal_signed_varints, marshal_fixed64s,
}
use metrics_governor.Prw.Proto.Loop.{
  ok, err, panics, stuck, insufficient_data, and_then, on_fixed64, round, rounds, unmarshal,
}
use metrics_governor.Prw.Proto.Messages.{WriteRequest, repeated}
use metrics_governor.Prw.Proto.Messages.Small.{
  marshal_label, marshal_sample, marshal_exemplar, marshal_metadata, switch_sample,
  unmarshal_sample,
}
use metrics_governor.Prw.Proto.Messages.Native.{marshal_span, marshal_histogram, empty_histogram}
use metrics_governor.Prw.Proto.Messages.Request.{
  marshal_series, marshal_request, unmarshal_request, empty_series,
}
use metrics_governor.Prw.Proto.Messages.Termination.{unmarshal_request_returns}
use metrics_governor.Prw.Proto.Messages.Malformed.{unmarshal_request_panics}
use metrics_governor.Prw.Proto.RoundTrip.Request.{unmarshal_request-marshal_request}

-- One series `__name__="up"` with the sample 1.0 at 1000 and a histogram with a negative delta.
abbrev up : WriteRequest
up = record {
  timeseries =
      record empty_series {
        labels = record { name = 95 ∷ 95 ∷ []; value = 117 ∷ 112 ∷ [] } ∷ [];
        samples = record { value = 4607182418800017408; timestamp = 1000 } ∷ [];
        histograms =
            record empty_histogram {
              schema = 4294967295;
              positive_spans = record { offset = 4294967294; length_ = 2 } ∷ [];
              positive_deltas = 1 ∷ 18446744073709551615 ∷ [];
              positive_counts = 4607182418800017408 ∷ [];
              timestamp = 7;
            }
            ∷ [];
      }
      ∷ [];
  metadata = record { type_ = 1; metric_family_name = 117 ∷ []; help = []; unit = [] } ∷ [];
}

varint_300 : varint 300 ≡ 172 ∷ 2 ∷ []
unfolding varint varint_groups
varint_300 = refl

consume_varint_300 : consume_varint (172 ∷ 2 ∷ 9 ∷ []) ≡ some (300, 2)
unfolding consume_varint varint_from
consume_varint_300 = refl

unmarshal_sample_short : unmarshal_sample (9 ∷ 1 ∷ []) ≡ err insufficient_data
unfolding unmarshal_sample switch_sample unmarshal rounds round and_then consume_tag consume_varint
    varint_from on_fixed64
unmarshal_sample_short = refl

unmarshal_request-marshal_request_example : unmarshal_request (marshal_request up) ≡ ok up
unfolding marshal_request marshal_series marshal_label marshal_sample marshal_exemplar
    marshal_histogram marshal_metadata marshal_span repeated tag_varint tag_varint_signed
    tag_fixed64 tag_length_delim fixed64 varint varint_groups marshal_signed_varints
    marshal_fixed64s
unmarshal_request-marshal_request_example =
    unmarshal_request-marshal_request up (ground arith) (omega arith)

unmarshal_request_returns_example : unmarshal_request (16 ∷ 128 ∷ []) ≢ stuck
unmarshal_request_returns_example = unmarshal_request_returns (16 ∷ 128 ∷ [])

unmarshal_request_panics_example :
    (consume_varint (9 ∷ []) ≡ none → unmarshal_request (varint (tag_of 2 0) ++ (9 ∷ [])) ≡ panics)
    × (consume_varint (9 ∷ []) ≡ some (9, 1)
        → 1 < 10
        → 10 < 2 ^ 63
        → unmarshal_request (varint (tag_of 2 2) ++ (9 ∷ [])) ≡ panics)
unmarshal_request_panics_example =
    unmarshal_request_panics 2 9 1 (9 ∷ []) (omega arith) (omega arith) (omega arith)
