-- ===== src/Prw/Proto/RoundTrip/Scalars.antt =====
-- The fields of a histogram before its buckets.
use metrics_governor.Prelude.{ℕ, refl, List, [], ◌++◌, All, ◌==◌, if◌then◌else◌, arith}
use metrics_governor.Prw.Proto.Wire.{tag_varint_signed}
use metrics_governor.Prw.Proto.Wire.RoundTrip.{IsU64}
use metrics_governor.Prw.Proto.Loop.Runs.{Runs, Runs-trans}
use metrics_governor.Prw.Proto.Messages.{Histogram, sign_extend}
use metrics_governor.Prw.Proto.Messages.Native.{
  count_field, float_field, empty_histogram, switch_buckets, switch_histogram,
}
use metrics_governor.Prw.Proto.RoundTrip.{IsU32}
use metrics_governor.Prw.Proto.RoundTrip.Fields.{
  IsEncodableSpan, IsWritten, count_field-Runs, float_field-Runs, schema_field-Runs,
}

-- The fields before the buckets, and those of the buckets.
abbrev pub IsEncodableScalars : Histogram → Type 0
IsEncodableScalars h =
    IsU64 h.count
    × IsWritten h.count_float
    × IsWritten h.sum
    × IsU32 h.schema
    × IsWritten h.zero_threshold
    × IsU64 h.zero_count
    × IsWritten h.zero_count_float

abbrev pub IsEncodableBuckets : Histogram → Type 0
IsEncodableBuckets h =
    All IsEncodableSpan h.negative_spans
    × All IsU64 h.negative_deltas
    × All IsU64 h.negative_counts
    × All IsEncodableSpan h.positive_spans
    × All IsU64 h.positive_deltas
    × All IsU64 h.positive_counts
    × IsU32 h.reset_hint
    × IsU64 h.timestamp

abbrev pub IsEncodableHistogram : Histogram → Type 0
IsEncodableHistogram h = IsEncodableScalars h × IsEncodableBuckets h

abbrev pub scalars : Histogram → Histogram
scalars h = record empty_histogram {
  count = h.count;
  count_float = h.count_float;
  sum = h.sum;
  schema = h.schema;
  zero_threshold = h.zero_threshold;
  zero_count = h.zero_count;
  zero_count_float = h.zero_count_float;
}

pub scalars-Runs :
    (h : Histogram) (rest : List ℕ)
    → IsEncodableScalars h
    → Runs switch_histogram empty_histogram
        (count_field 1 h.count
          ++ (float_field 2 h.count_float
              ++ (float_field 3 h.sum
                  ++ ((if h.schema == 0 then [] else tag_varint_signed 4 (sign_extend h.schema))
                      ++ (float_field 5 h.zero_threshold
                          ++ (count_field 6 h.zero_count
                              ++ (float_field 7 h.zero_count_float ++ rest)))))))
        (scalars h)
        rest
unfolding switch_histogram switch_buckets
scalars-Runs h rest i =
    (Runs-trans
      (count_field-Runs (λ v. record empty_histogram { count = v }) 1 h.count
        (float_field 2 h.count_float
          ++ (float_field 3 h.sum
              ++ ((if h.schema == 0 then [] else tag_varint_signed 4 (sign_extend h.schema))
                  ++ (float_field 5 h.zero_threshold
                      ++ (count_field 6 h.zero_count
                          ++ (float_field 7 h.zero_count_float ++ rest))))))
        (omega arith) i.0 (λ bytes. refl))
      (Runs-trans
        (float_field-Runs
          (λ v. record (record empty_histogram { count = h.count }) { count_float = v }) 2
          h.count_float
          (float_field 3 h.sum
            ++ ((if h.schema == 0 then [] else tag_varint_signed 4 (sign_extend h.schema))
                ++ (float_field 5 h.zero_threshold
                    ++ (count_field 6 h.zero_count ++ (float_field 7 h.zero_count_float ++ rest)))))
          (omega arith) i.1 (λ bytes. refl))
        (Runs-trans
          (float_field-Runs
            (λ v. record (record empty_histogram { count = h.count; count_float = h.count_float }) {
              sum = v;
            })
            3 h.sum
            ((if h.schema == 0 then [] else tag_varint_signed 4 (sign_extend h.schema))
              ++ (float_field 5 h.zero_threshold
                  ++ (count_field 6 h.zero_count ++ (float_field 7 h.zero_count_float ++ rest))))
            (omega arith) i.2 (λ bytes. refl))
          (Runs-trans
            (schema_field-Runs
              (λ v.
                record (record empty_histogram {
                  count = h.count;
                  count_float = h.count_float;
                  sum = h.sum;
                }) { schema = v })
              4 h.schema
              (float_field 5 h.zero_threshold
                ++ (count_field 6 h.zero_count ++ (float_field 7 h.zero_count_float ++ rest)))
              (omega arith) i.3 (λ bytes. refl))
            (Runs-trans
              (float_field-Runs
                (λ v.
                  record (record empty_histogram {
                    count = h.count;
                    count_float = h.count_float;
                    sum = h.sum;
                    schema = h.schema;
                  }) { zero_threshold = v })
                5 h.zero_threshold
                (count_field 6 h.zero_count ++ (float_field 7 h.zero_count_float ++ rest))
                (omega arith) i.4 (λ bytes. refl))
              (Runs-trans
                (count_field-Runs
                  (λ v.
                    record (record empty_histogram {
                      count = h.count;
                      count_float = h.count_float;
                      sum = h.sum;
                      schema = h.schema;
                      zero_threshold = h.zero_threshold;
                    }) { zero_count = v })
                  6 h.zero_count (float_field 7 h.zero_count_float ++ rest) (omega arith) i.5
                  (λ bytes. refl))
                (float_field-Runs
                  (λ v.
                    record (record empty_histogram {
                      count = h.count;
                      count_float = h.count_float;
                      sum = h.sum;
                      schema = h.schema;
                      zero_threshold = h.zero_threshold;
                      zero_count = h.zero_count;
                    }) { zero_count_float = v })
                  7 h.zero_count_float rest (omega arith) i.6 (λ bytes. refl))))))))
