-- ===== src/Prw/Proto/Messages/Native.antt =====
-- Native histograms and their spans of buckets.
use metrics_governor.Prelude.{ℕ, List, [], ◌∷◌, ◌++◌, length, ◌==◌, if◌then◌else◌}
use metrics_governor.Prw.Proto.Wire.{
  tag_varint, tag_varint_signed, tag_fixed64, tag_length_delim, marshal_signed_varints,
  unmarshal_signed_varints, marshal_fixed64s, unmarshal_fixed64s,
}
use metrics_governor.Prw.Proto.Loop.{
  Decoded, ok, and_then, Switch, skipped, expects, on_bytes, on_varint, on_signed_varint,
  on_fixed64, unmarshal,
}
use metrics_governor.Prw.Proto.Messages.{
  BucketSpan, Histogram, sign_extend, low_32, is_zero_float, repeated,
}

unfoldable pub marshal_span : BucketSpan → List ℕ
marshal_span s = tag_varint_signed 1 (sign_extend s.offset) ++ tag_varint 2 s.length_

abbrev pub empty_span : BucketSpan
empty_span = record { offset = 0; length_ = 0 }

unfoldable pub switch_span : Switch BucketSpan
switch_span s field_num wire_type bytes =
    if field_num == 1
    then expects 0 wire_type (on_signed_varint (λ v. record s { offset = low_32 v }) bytes)
    else if field_num == 2
    then expects 0 wire_type (on_varint (λ v. record s { length_ = low_32 v }) bytes)
    else skipped s wire_type bytes

unfoldable pub unmarshal_span : List ℕ → Decoded BucketSpan
unmarshal_span bytes = unmarshal switch_span empty_span bytes

abbrev pub count_field : ℕ → ℕ → List ℕ
count_field field_num v = if v == 0 then [] else tag_varint field_num v

abbrev pub float_field : ℕ → ℕ → List ℕ
float_field field_num v = if is_zero_float v then [] else tag_fixed64 field_num v

abbrev pub packed_field : (List ℕ → List ℕ) → ℕ → List ℕ → List ℕ
packed_field pack field_num vs = if length vs == 0 then [] else tag_length_delim field_num (pack vs)

unfoldable pub marshal_histogram : Histogram → List ℕ
marshal_histogram h =
    count_field 1 h.count
    ++ (float_field 2 h.count_float
        ++ (float_field 3 h.sum
            ++ ((if h.schema == 0 then [] else tag_varint_signed 4 (sign_extend h.schema))
                ++ (float_field 5 h.zero_threshold
                    ++ (count_field 6 h.zero_count
                        ++ (float_field 7 h.zero_count_float
                            ++ (repeated marshal_span 8 h.negative_spans
                                ++ (packed_field marshal_signed_varints 9 h.negative_deltas
                                    ++ (packed_field marshal_fixed64s 10 h.negative_counts
                                        ++ (repeated marshal_span 11 h.positive_spans
                                            ++ (packed_field marshal_signed_varints 12
                                                  h.positive_deltas
                                                ++ (packed_field marshal_fixed64s 13
                                                      h.positive_counts
                                                    ++ ((if h.reset_hint == 0
                                                          then []
                                                          else tag_varint 14
                                                            (sign_extend h.reset_hint))
                                                        ++ tag_varint 15 h.timestamp)))))))))))))

abbrev pub empty_histogram : Histogram
empty_histogram = record {
  count = 0;
  count_float = 0;
  sum = 0;
  schema = 0;
  zero_threshold = 0;
  zero_count = 0;
  zero_count_float = 0;
  negative_spans = [];
  negative_deltas = [];
  negative_counts = [];
  positive_spans = [];
  positive_deltas = [];
  positive_counts = [];
  reset_hint = 0;
  timestamp = 0;
}

-- The cases of the spans and of the packed lists.
unfoldable pub switch_buckets : Switch Histogram
switch_buckets h field_num wire_type bytes =
    if field_num == 8
    then expects 2 wire_type (
        on_bytes
          (λ b.
            and_then (unmarshal_span b)
              (λ s. ok (record h { negative_spans = h.negative_spans ++ s ∷ [] })))
          bytes)
    else if field_num == 9
    then expects 2 wire_type
        (on_bytes (λ b. ok (record h { negative_deltas = unmarshal_signed_varints b })) bytes)
    else if field_num == 10
    then expects 2 wire_type
        (on_bytes (λ b. ok (record h { negative_counts = unmarshal_fixed64s b })) bytes)
    else if field_num == 11
    then expects 2 wire_type (
        on_bytes
          (λ b.
            and_then (unmarshal_span b)
              (λ s. ok (record h { positive_spans = h.positive_spans ++ s ∷ [] })))
          bytes)
    else if field_num == 12
    then expects 2 wire_type
        (on_bytes (λ b. ok (record h { positive_deltas = unmarshal_signed_varints b })) bytes)
    else if field_num == 13
    then expects 2 wire_type
        (on_bytes (λ b. ok (record h { positive_counts = unmarshal_fixed64s b })) bytes)
    else if field_num == 14
    then on_varint (λ v. record h { reset_hint = low_32 v }) bytes
    else if field_num == 15
    then on_varint (λ v. record h { timestamp = v }) bytes
    else skipped h wire_type bytes

unfoldable pub switch_histogram : Switch Histogram
switch_histogram h field_num wire_type bytes =
    if field_num == 1
    then on_varint (λ v. record h { count = v }) bytes
    else if field_num == 2
    then on_fixed64 (λ v. record h { count_float = v }) bytes
    else if field_num == 3
    then on_fixed64 (λ v. record h { sum = v }) bytes
    else if field_num == 4
    then on_signed_varint (λ v. record h { schema = low_32 v }) bytes
    else if field_num == 5
    then on_fixed64 (λ v. record h { zero_threshold = v }) bytes
    else if field_num == 6
    then on_varint (λ v. record h { zero_count = v }) bytes
    else if field_num == 7
    then on_fixed64 (λ v. record h { zero_count_float = v }) bytes
    else switch_buckets h field_num wire_type bytes

unfoldable pub unmarshal_histogram : List ℕ → Decoded Histogram
unmarshal_histogram bytes = unmarshal switch_histogram empty_histogram bytes
