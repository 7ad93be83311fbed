-- ===== src/Prw/Proto/Messages/Small.antt =====
-- Labels, samples, exemplars and metadata.
use metrics_governor.Prelude.{ℕ, List, [], ◌∷◌, ◌++◌, length, ◌==◌, if◌then◌else◌}
use metrics_governor.Prw.Proto.Wire.{tag_varint, tag_fixed64, tag_length_delim}
use metrics_governor.Prw.Proto.Loop.{
  Decoded, ok, and_then, Switch, skipped, expects, on_bytes, on_varint, on_fixed64, unmarshal,
}
use metrics_governor.Prw.Proto.Messages.{
  Label, Sample, Exemplar, MetricMetadata, sign_extend, low_32, repeated,
}

unfoldable pub marshal_label : Label → List ℕ
marshal_label l = tag_length_delim 1 l.name ++ tag_length_delim 2 l.value

abbrev pub empty_label : Label
empty_label = record { name = []; value = [] }

unfoldable pub switch_label : Switch Label
switch_label l field_num wire_type bytes =
    if field_num == 1
    then expects 2 wire_type (on_bytes (λ b. ok (record l { name = b })) bytes)
    else if field_num == 2
    then expects 2 wire_type (on_bytes (λ b. ok (record l { value = b })) bytes)
    else skipped l wire_type bytes

unfoldable pub unmarshal_label : List ℕ → Decoded Label
unmarshal_label bytes = unmarshal switch_label empty_label bytes

unfoldable pub marshal_sample : Sample → List ℕ
marshal_sample s = tag_fixed64 1 s.value ++ tag_varint 2 s.timestamp

abbrev pub empty_sample : Sample
empty_sample = record { value = 0; timestamp = 0 }

unfoldable pub switch_sample : Switch Sample
switch_sample s field_num wire_type bytes =
    if field_num == 1
    then expects 1 wire_type (on_fixed64 (λ v. record s { value = v }) bytes)
    else if field_num == 2
    then expects 0 wire_type (on_varint (λ v. record s { timestamp = v }) bytes)
    else skipped s wire_type bytes

unfoldable pub unmarshal_sample : List ℕ → Decoded Sample
unmarshal_sample bytes = unmarshal switch_sample empty_sample bytes

unfoldable pub marshal_exemplar : Exemplar → List ℕ
marshal_exemplar e =
    repeated marshal_label 1 e.labels ++ (tag_fixed64 2 e.value ++ tag_varint 3 e.timestamp)

abbrev pub empty_exemplar : Exemplar
empty_exemplar = record { labels = []; value = 0; timestamp = 0 }

unfoldable pub switch_exemplar : Switch Exemplar
switch_exemplar e field_num wire_type bytes =
    if field_num == 1
    then expects 2 wire_type (
        on_bytes
          (λ b. and_then (unmarshal_label b) (λ l. ok (record e { labels = e.labels ++ l ∷ [] })))
          bytes)
    else if field_num == 2
    then expects 1 wire_type (on_fixed64 (λ v. record e { value = v }) bytes)
    else if field_num == 3
    then expects 0 wire_type (on_varint (λ v. record e { timestamp = v }) bytes)
    else skipped e wire_type bytes

unfoldable pub unmarshal_exemplar : List ℕ → Decoded Exemplar
unmarshal_exemplar bytes = unmarshal switch_exemplar empty_exemplar bytes

-- A string that is not empty.
abbrev pub string_field : ℕ → List ℕ → List ℕ
string_field field_num s = if length s == 0 then [] else tag_length_delim field_num s

unfoldable pub marshal_metadata : MetricMetadata → List ℕ
marshal_metadata md =
    (if md.type_ == 0 then [] else tag_varint 1 (sign_extend md.type_))
    ++ (string_field 2 md.metric_family_name ++ (string_field 3 md.help ++ string_field 4 md.unit))

abbrev pub empty_metadata : MetricMetadata
empty_metadata = record { type_ = 0; metric_family_name = []; help = []; unit = [] }

unfoldable pub switch_metadata : Switch MetricMetadata
switch_metadata md field_num wire_type bytes =
    if field_num == 1
    then on_varint (λ v. record md { type_ = low_32 v }) bytes
    else if field_num == 2
    then expects 2 wire_type (on_bytes (λ b. ok (record md { metric_family_name = b })) bytes)
    else if field_num == 3
    then expects 2 wire_type (on_bytes (λ b. ok (record md { help = b })) bytes)
    else if field_num == 4
    then expects 2 wire_type (on_bytes (λ b. ok (record md { unit = b })) bytes)
    else skipped md wire_type bytes

unfoldable pub unmarshal_metadata : List ℕ → Decoded MetricMetadata
unmarshal_metadata bytes = unmarshal switch_metadata empty_metadata bytes
