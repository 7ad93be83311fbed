-- ===== src/Prw/Proto/RoundTrip/Native.antt =====
-- Native histograms.
use metrics_governor.Prelude.{◌≡◌, [], ◌++◌, length, ◌==◌, if◌then◌else◌}
use metrics_governor.Prw.Proto.Wire.{tag_varint_signed}
use metrics_governor.Prw.Proto.Wire.RoundTrip.{IsU64}
use metrics_governor.Prw.Proto.Loop.{ok}
use metrics_governor.Prw.Proto.Loop.Runs.{Runs-trans, unmarshal-Runs}
use metrics_governor.Prw.Proto.Messages.{Histogram, sign_extend}
use metrics_governor.Prw.Proto.Messages.Native.{
  count_field, float_field, marshal_histogram, empty_histogram, switch_histogram,
  unmarshal_histogram,
}
use metrics_governor.Prw.Proto.Messages.Termination.{switch_histogram-IsShortening}
use metrics_governor.Prw.Proto.RoundTrip.{back_IsU64}
use metrics_governor.Prw.Proto.RoundTrip.Scalars.{scalars-Runs, IsEncodableHistogram}
use metrics_governor.Prw.Proto.RoundTrip.Buckets.{bucket_bytes, buckets-Runs}

pub unmarshal_histogram-marshal_histogram :
    (h : Histogram)
    → IsEncodableHistogram h
    → IsU64 (length (marshal_histogram h))
    → unmarshal_histogram (marshal_histogram h) ≡ ok h
unfolding marshal_histogram unmarshal_histogram
unmarshal_histogram-marshal_histogram h i short =
    let s0 =
      back_IsU64 (count_field 1 h.count)
        (float_field 2 h.count_float
          ++ (float_field 3 h.sum
              ++ ((if h.schema == 0 then [] else tag_varint_signed 4 (sign_extend h.schema))
                  ++ (float_field 5 h.zero_threshold
                      ++ (count_field 6 h.zero_count
                          ++ (float_field 7 h.zero_count_float ++ (bucket_bytes h)))))))
        short in
    let s1 =
      back_IsU64 (float_field 2 h.count_float)
        (float_field 3 h.sum
          ++ ((if h.schema == 0 then [] else tag_varint_signed 4 (sign_extend h.schema))
              ++ (float_field 5 h.zero_threshold
                  ++ (count_field 6 h.zero_count
                      ++ (float_field 7 h.zero_count_float ++ (bucket_bytes h))))))
        s0 in
    let s2 =
      back_IsU64 (float_field 3 h.sum)
        ((if h.schema == 0 then [] else tag_varint_signed 4 (sign_extend h.schema))
          ++ (float_field 5 h.zero_threshold
              ++ (count_field 6 h.zero_count
                  ++ (float_field 7 h.zero_count_float ++ (bucket_bytes h)))))
        s1 in
    let s3 =
      back_IsU64 ((if h.schema == 0 then [] else tag_varint_signed 4 (sign_extend h.schema)))
        (float_field 5 h.zero_threshold
          ++ (count_field 6 h.zero_count ++ (float_field 7 h.zero_count_float ++ (bucket_bytes h))))
        s2 in
    let s4 =
      back_IsU64 (float_field 5 h.zero_threshold)
        (count_field 6 h.zero_count ++ (float_field 7 h.zero_count_float ++ (bucket_bytes h))) s3 in
    let s5 =
      back_IsU64 (count_field 6 h.zero_count) (float_field 7 h.zero_count_float ++ (bucket_bytes h))
        s4 in
    let s6 = back_IsU64 (float_field 7 h.zero_count_float) (bucket_bytes h) s5 in
    unmarshal-Runs switch_histogram empty_histogram h
      (count_field 1 h.count
        ++ (float_field 2 h.count_float
            ++ (float_field 3 h.sum
                ++ ((if h.schema == 0 then [] else tag_varint_signed 4 (sign_extend h.schema))
                    ++ (float_field 5 h.zero_threshold
                        ++ (count_field 6 h.zero_count
                            ++ (float_field 7 h.zero_count_float ++ (bucket_bytes h))))))))
      switch_histogram-IsShortening
      (Runs-trans (scalars-Runs h (bucket_bytes h) i.0) (buckets-Runs h i.1 s6))
