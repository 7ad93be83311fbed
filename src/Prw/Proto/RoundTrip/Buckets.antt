-- ===== src/Prw/Proto/RoundTrip/Buckets.antt =====
-- The fields of a histogram for its buckets, and those after them.
use metrics_governor.Prelude.{ℕ, refl, List, [], ◌++◌, length, ◌==◌, if◌then◌else◌, arith}
use metrics_governor.Prw.Proto.Wire.{
  tag_varint, marshal_signed_varints, unmarshal_signed_varints, marshal_fixed64s,
  unmarshal_fixed64s,
}
use metrics_governor.Prw.Proto.Wire.RoundTrip.{
  IsU64, unmarshal_signed_varints-marshal_signed_varints, unmarshal_fixed64s-marshal_fixed64s,
}
use metrics_governor.Prw.Proto.Loop.Runs.{Runs, Runs-trans}
use metrics_governor.Prw.Proto.Loop.Fields.{tag_varint-Runs}
use metrics_governor.Prw.Proto.Messages.{Histogram, sign_extend, repeated}
use metrics_governor.Prw.Proto.Messages.Native.{
  marshal_span, packed_field, switch_buckets, switch_histogram,
}
use metrics_governor.Prw.Proto.RoundTrip.{last-Runs, front_IsU64, back_IsU64, int32_field-Runs}
use metrics_governor.Prw.Proto.RoundTrip.Fields.{packed_IsU64, packed_field-Runs, spans-Runs}
use metrics_governor.Prw.Proto.RoundTrip.Scalars.{IsEncodableBuckets, scalars}

-- The bytes of the fields of the buckets.
abbrev pub bucket_bytes : Histogram → List ℕ
bucket_bytes h =
    repeated marshal_span 8 h.negative_spans
    ++ (packed_field marshal_signed_varints 9 h.negative_deltas
        ++ (packed_field marshal_fixed64s 10 h.negative_counts
            ++ (repeated marshal_span 11 h.positive_spans
                ++ (packed_field marshal_signed_varints 12 h.positive_deltas
                    ++ (packed_field marshal_fixed64s 13 h.positive_counts
                        ++ ((if h.reset_hint == 0
                              then []
                              else tag_varint 14 (sign_extend h.reset_hint))
                            ++ tag_varint 15 h.timestamp))))))

pub buckets-Runs :
    (h : Histogram)
    → IsEncodableBuckets h
    → IsU64 (length (bucket_bytes h))
    → Runs switch_histogram (scalars h) (bucket_bytes h) h []
unfolding switch_histogram switch_buckets marshal_signed_varints marshal_fixed64s
buckets-Runs h i short =
    let last = tag_varint 15 h.timestamp in
    let bytes_14 =
      (if h.reset_hint == 0 then [] else tag_varint 14 (sign_extend h.reset_hint)) ++ last in
    let bytes_13 = packed_field marshal_fixed64s 13 h.positive_counts ++ bytes_14 in
    let bytes_12 = packed_field marshal_signed_varints 12 h.positive_deltas ++ bytes_13 in
    let bytes_11 = repeated marshal_span 11 h.positive_spans ++ bytes_12 in
    let bytes_10 = packed_field marshal_fixed64s 10 h.negative_counts ++ bytes_11 in
    let bytes_9 = packed_field marshal_signed_varints 9 h.negative_deltas ++ bytes_10 in
    let short_9 = back_IsU64 (repeated marshal_span 8 h.negative_spans) bytes_9 short in
    let short_10 =
      back_IsU64 (packed_field marshal_signed_varints 9 h.negative_deltas) bytes_10 short_9 in
    let short_11 =
      back_IsU64 (packed_field marshal_fixed64s 10 h.negative_counts) bytes_11 short_10 in
    let short_12 = back_IsU64 (repeated marshal_span 11 h.positive_spans) bytes_12 short_11 in
    let short_13 =
      back_IsU64 (packed_field marshal_signed_varints 12 h.positive_deltas) bytes_13 short_12 in
    (Runs-trans
      (spans-Runs (λ v. record (scalars h) { negative_spans = v }) 8 h.negative_spans bytes_9
        (omega arith) i.0 (front_IsU64 (repeated marshal_span 8 h.negative_spans) bytes_9 short)
        (λ zs bytes. refl))
      (Runs-trans
        (packed_field-Runs marshal_signed_varints unmarshal_signed_varints
          (λ v. record (record (scalars h) { negative_spans = h.negative_spans }) {
            negative_deltas = v;
          })
          9 h.negative_deltas bytes_10 (omega arith)
          (unmarshal_signed_varints-marshal_signed_varints h.negative_deltas i.1)
          (packed_IsU64 marshal_signed_varints 9 h.negative_deltas refl (
            front_IsU64 (packed_field marshal_signed_varints 9 h.negative_deltas) bytes_10 short_9))
          (λ bytes. refl))
        (Runs-trans
          (packed_field-Runs marshal_fixed64s unmarshal_fixed64s
            (λ v.
              record (record (scalars h) {
                negative_spans = h.negative_spans;
                negative_deltas = h.negative_deltas;
              }) { negative_counts = v })
            10 h.negative_counts bytes_11 (omega arith)
            (unmarshal_fixed64s-marshal_fixed64s h.negative_counts i.2)
            (packed_IsU64 marshal_fixed64s 10 h.negative_counts refl
              (front_IsU64 (packed_field marshal_fixed64s 10 h.negative_counts) bytes_11 short_10))
            (λ bytes. refl))
          (Runs-trans
            (spans-Runs
              (λ v.
                record (record (scalars h) {
                  negative_spans = h.negative_spans;
                  negative_deltas = h.negative_deltas;
                  negative_counts = h.negative_counts;
                }) { positive_spans = v })
              11 h.positive_spans bytes_12 (omega arith) i.3
              (front_IsU64 (repeated marshal_span 11 h.positive_spans) bytes_12 short_11)
              (λ zs bytes. refl))
            (Runs-trans
              (packed_field-Runs marshal_signed_varints unmarshal_signed_varints
                (λ v.
                  record (record (scalars h) {
                    negative_spans = h.negative_spans;
                    negative_deltas = h.negative_deltas;
                    negative_counts = h.negative_counts;
                    positive_spans = h.positive_spans;
                  }) { positive_deltas = v })
                12 h.positive_deltas bytes_13 (omega arith)
                (unmarshal_signed_varints-marshal_signed_varints h.positive_deltas i.4)
                (packed_IsU64 marshal_signed_varints 12 h.positive_deltas refl (
                  front_IsU64 (packed_field marshal_signed_varints 12 h.positive_deltas) bytes_13
                    short_12))
                (λ bytes. refl))
              (Runs-trans
                (packed_field-Runs marshal_fixed64s unmarshal_fixed64s
                  (λ v.
                    record (record (scalars h) {
                      negative_spans = h.negative_spans;
                      negative_deltas = h.negative_deltas;
                      negative_counts = h.negative_counts;
                      positive_spans = h.positive_spans;
                      positive_deltas = h.positive_deltas;
                    }) { positive_counts = v })
                  13 h.positive_counts bytes_14 (omega arith)
                  (unmarshal_fixed64s-marshal_fixed64s h.positive_counts i.5)
                  (packed_IsU64 marshal_fixed64s 13 h.positive_counts refl (
                    front_IsU64 (packed_field marshal_fixed64s 13 h.positive_counts) bytes_14
                      short_13))
                  (λ bytes. refl))
                (Runs-trans
                  (int32_field-Runs
                    (λ v.
                      record (record (scalars h) {
                        negative_spans = h.negative_spans;
                        negative_deltas = h.negative_deltas;
                        negative_counts = h.negative_counts;
                        positive_spans = h.positive_spans;
                        positive_deltas = h.positive_deltas;
                        positive_counts = h.positive_counts;
                      }) { reset_hint = v })
                    14 h.reset_hint last (omega arith) i.6 (λ bytes. refl))
                  (last-Runs last (
                    tag_varint-Runs
                      (λ v.
                        record (record (scalars h) {
                          negative_spans = h.negative_spans;
                          negative_deltas = h.negative_deltas;
                          negative_counts = h.negative_counts;
                          positive_spans = h.positive_spans;
                          positive_deltas = h.positive_deltas;
                          positive_counts = h.positive_counts;
                          reset_hint = h.reset_hint;
                        }) { timestamp = v })
                      15 h.timestamp
                      (record (scalars h) {
                        negative_spans = h.negative_spans;
                        negative_deltas = h.negative_deltas;
                        negative_counts = h.negative_counts;
                        positive_spans = h.positive_spans;
                        positive_deltas = h.positive_deltas;
                        positive_counts = h.positive_counts;
                        reset_hint = h.reset_hint;
                      })
                      [] (omega arith) i.7 (λ bytes. refl))))))))))
