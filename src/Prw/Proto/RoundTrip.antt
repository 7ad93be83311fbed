-- ===== src/Prw/Proto/RoundTrip.antt =====
-- Round trips of the messages of internal/prw/proto.go: labels, samples, exemplars and metadata.
pub mod Fields
pub mod Scalars
pub mod Buckets
pub mod Native
pub mod Request
use metrics_governor.Prelude.{
  ℕ, ◌+◌, ◌-◌, ◌^◌, ◌%◌, ◌≤◌, ◌<◌, ◌≡◌, refl, subst, Bool, true, false, List, [], ◌∷◌, ◌++◌,
  append-nil, length, length-append, All, ltb, ◌==◌, if◌then◌else◌, arith,
}
use metrics_governor.Prw.Proto.Wire.{tag_varint, tag_fixed64, tag_length_delim}
use metrics_governor.Prw.Proto.Wire.RoundTrip.{IsU64}
use metrics_governor.Prw.Proto.Loop.{Switch, ok, and_then, on_bytes, on_varint}
use metrics_governor.Prw.Proto.Loop.Runs.{Runs, Runs-trans, unmarshal-Runs}
use metrics_governor.Prw.Proto.Loop.Fields.{
  tag_varint-Runs, tag_fixed64-Runs, tag_length_delim-Runs, unless-Runs, repeated-Runs,
  length-tag_length_delim,
}
use metrics_governor.Prw.Proto.Messages.{
  Label, Sample, Exemplar, MetricMetadata, sign_extend, low_32, repeated,
}
use metrics_governor.Prw.Proto.Messages.Small.{
  marshal_label, switch_label, unmarshal_label, empty_label, marshal_sample, switch_sample,
  unmarshal_sample, empty_sample, marshal_exemplar, switch_exemplar, unmarshal_exemplar,
  empty_exemplar, marshal_metadata, switch_metadata, unmarshal_metadata, empty_metadata,
  string_field,
}
use metrics_governor.Prw.Proto.Messages.Termination.{
  switch_label-IsShortening, switch_sample-IsShortening, switch_exemplar-IsShortening,
  switch_metadata-IsShortening,
}

abbrev pub IsU32 : ℕ → Type 0
IsU32 v = v < 2 ^ 32

-- The last field has no bytes after it.
pub last-Runs :
    {A : Type 0} {switch : Switch A} {a c : A} (bytes : List ℕ)
    → Runs switch a (bytes ++ []) c []
    → Runs switch a bytes c []
last-Runs {A} {switch} {a} {c} bytes r = subst (λ l. Runs switch a l c []) (append-nil bytes) r

pub front_IsU64 : (xs ys : List ℕ) → IsU64 (length (xs ++ ys)) → IsU64 (length xs)
front_IsU64 xs ys h = omega (arith, length-append xs ys)

pub back_IsU64 : (xs ys : List ℕ) → IsU64 (length (xs ++ ys)) → IsU64 (length ys)
back_IsU64 xs ys h = omega (arith, length-append xs ys)

pub payload_IsU64 :
    (f : ℕ) (payload : List ℕ)
    → IsU64 (length (tag_length_delim f payload))
    → IsU64 (length payload)
payload_IsU64 f payload h = omega (arith, length-tag_length_delim f payload)

pub sign_extend-IsU64 : (v : ℕ) → IsU32 v → IsU64 (sign_extend v)
sign_extend-IsU64 v h = ground arith

pub low_32-sign_extend : (v : ℕ) → IsU32 v → low_32 (sign_extend v) ≡ v
low_32-sign_extend v h = ground arith

pub unmarshal_label-marshal_label :
    (l : Label) → IsU64 (length (marshal_label l)) → unmarshal_label (marshal_label l) ≡ ok l
unfolding marshal_label unmarshal_label switch_label
unmarshal_label-marshal_label l h =
    let name_field = tag_length_delim 1 l.name in
    let value_field = tag_length_delim 2 l.value in
    let named : Label = record empty_label { name = l.name } in
    unmarshal-Runs switch_label empty_label l (name_field ++ value_field) switch_label-IsShortening
      (Runs-trans
        (tag_length_delim-Runs (λ b. ok (record empty_label { name = b })) 1 l.name empty_label
          named value_field (omega arith)
          (payload_IsU64 1 l.name (front_IsU64 name_field value_field h)) refl (λ bytes. refl))
        (last-Runs value_field (
          tag_length_delim-Runs (λ b. ok (record named { value = b })) 2 l.value named l []
            (omega arith) (payload_IsU64 2 l.value (back_IsU64 name_field value_field h)) refl
            (λ bytes. refl))))

abbrev pub IsEncodableSample : Sample → Type 0
IsEncodableSample s = IsU64 s.value × IsU64 s.timestamp

pub unmarshal_sample-marshal_sample :
    (s : Sample) → IsEncodableSample s → unmarshal_sample (marshal_sample s) ≡ ok s
unfolding marshal_sample unmarshal_sample switch_sample
unmarshal_sample-marshal_sample s h =
    let time_field = tag_varint 2 s.timestamp in
    let valued : Sample = record empty_sample { value = s.value } in
    unmarshal-Runs switch_sample empty_sample s (tag_fixed64 1 s.value ++ time_field)
      switch_sample-IsShortening
      (Runs-trans
        (tag_fixed64-Runs (λ v. record empty_sample { value = v }) 1 s.value empty_sample time_field
          (omega arith) h.0 (λ bytes. refl))
        (last-Runs time_field (
          tag_varint-Runs (λ v. record valued { timestamp = v }) 2 s.timestamp valued []
            (omega arith) h.1 (λ bytes. refl))))

labels-All :
    (ls : List Label)
    → All (λ l. IsU64 (length (marshal_label l)) → unmarshal_label (marshal_label l) ≡ ok l) ls
labels-All [] = tt
labels-All (l ∷ ls) = (unmarshal_label-marshal_label l, labels-All ls)

pub labels-Runs :
    {A : Type 0} {switch : Switch A} (put : List Label → A) (ls : List Label) (rest : List ℕ)
    → IsU64 (length (repeated marshal_label 1 ls))
    → ((zs : List Label) (bytes : List ℕ)
        → switch (put zs) 1 2 bytes
          ≡ on_bytes (λ b. and_then (unmarshal_label b) (λ x. ok (put (zs ++ x ∷ [])))) bytes)
    → Runs switch (put []) (repeated marshal_label 1 ls ++ rest) (put ls) rest
labels-Runs put ls rest h e =
    repeated-Runs marshal_label unmarshal_label put 1 [] ls rest (omega arith) h e (labels-All ls)

abbrev pub IsEncodableExemplar : Exemplar → Type 0
IsEncodableExemplar e = IsU64 e.value × IsU64 e.timestamp

pub unmarshal_exemplar-marshal_exemplar :
    (e : Exemplar)
    → IsEncodableExemplar e
    → IsU64 (length (marshal_exemplar e))
    → unmarshal_exemplar (marshal_exemplar e) ≡ ok e
unfolding marshal_exemplar unmarshal_exemplar switch_exemplar
unmarshal_exemplar-marshal_exemplar e h short =
    let time_field = tag_varint 3 e.timestamp in
    let value_field = tag_fixed64 2 e.value in
    let label_fields = repeated marshal_label 1 e.labels in
    let labelled : Exemplar = record empty_exemplar { labels = e.labels } in
    let valued : Exemplar = record labelled { value = e.value } in
    unmarshal-Runs switch_exemplar empty_exemplar e (label_fields ++ (value_field ++ time_field))
      switch_exemplar-IsShortening
      (Runs-trans
        (labels-Runs (λ ls. record empty_exemplar { labels = ls }) e.labels
          (value_field ++ time_field) (front_IsU64 label_fields (value_field ++ time_field) short)
          (λ zs bytes. refl))
        (Runs-trans
          (tag_fixed64-Runs (λ v. record labelled { value = v }) 2 e.value labelled time_field
            (omega arith) h.0 (λ bytes. refl))
          (last-Runs time_field (
            tag_varint-Runs (λ v. record valued { timestamp = v }) 3 e.timestamp valued []
              (omega arith) h.1 (λ bytes. refl)))))

abbrev pub IsEncodableMetadata : MetricMetadata → Type 0
IsEncodableMetadata md = IsU32 md.type_

empty_string : (s : List ℕ) → (length s == 0) ≡ true → s ≡ []
empty_string [] e = refl
empty_string (c ∷ s) e = absurd (ground arith)

string_IsU64 : (f : ℕ) (s : List ℕ) → IsU64 (length (string_field f s)) → IsU64 (length s)
string_IsU64 f s h = ground (arith, length-tag_length_delim f s)

module _ {A : Type 0} {switch : Switch A} where
  string_field-Runs :
      (put : List ℕ → A) (f : ℕ) (s rest : List ℕ)
      → f < 100
      → IsU64 (length (string_field f s))
      → ((bytes : List ℕ) → switch (put []) f 2 bytes ≡ on_bytes (λ b. ok (put b)) bytes)
      → Runs switch (put []) (string_field f s ++ rest) (put s) rest
  string_field-Runs put f s rest hf h e =
      unless-Runs put s [] (length s == 0) (tag_length_delim f s) rest (empty_string s) (
        tag_length_delim-Runs (λ b. ok (put b)) f s (put []) (put s) rest hf (string_IsU64 f s h)
          refl e)

  -- An int32 that is not zero.
  pub int32_field-Runs :
      (put : ℕ → A) (f v : ℕ) (rest : List ℕ)
      → f < 100
      → IsU32 v
      → ((bytes : List ℕ) → switch (put 0) f 0 bytes ≡ on_varint (λ u. put (low_32 u)) bytes)
      → Runs switch
          (put 0)
          ((if v == 0 then [] else tag_varint f (sign_extend v)) ++ rest)
          (put v)
          rest
  int32_field-Runs put f v rest hf h e =
      unless-Runs put v 0 (v == 0) (tag_varint f (sign_extend v)) rest (λ z. ground arith)
        (subst (λ u. Runs switch (put 0) (tag_varint f (sign_extend v) ++ rest) (put u) rest)
          (low_32-sign_extend v h)
          (tag_varint-Runs (λ u. put (low_32 u)) f (sign_extend v) (put 0) rest hf
            (sign_extend-IsU64 v h) e))

pub unmarshal_metadata-marshal_metadata :
    (md : MetricMetadata)
    → IsEncodableMetadata md
    → IsU64 (length (marshal_metadata md))
    → unmarshal_metadata (marshal_metadata md) ≡ ok md
unfolding marshal_metadata unmarshal_metadata switch_metadata
unmarshal_metadata-marshal_metadata md h short =
    let type_field = if md.type_ == 0 then [] else tag_varint 1 (sign_extend md.type_) in
    let name_field = string_field 2 md.metric_family_name in
    let help_field = string_field 3 md.help in
    let unit_field = string_field 4 md.unit in
    let typed : MetricMetadata = record empty_metadata { type_ = md.type_ } in
    let named : MetricMetadata = record typed { metric_family_name = md.metric_family_name } in
    let helped : MetricMetadata = record named { help = md.help } in
    let from_name = back_IsU64 type_field (name_field ++ (help_field ++ unit_field)) short in
    let from_help = back_IsU64 name_field (help_field ++ unit_field) from_name in
    unmarshal-Runs switch_metadata empty_metadata md
      (type_field ++ (name_field ++ (help_field ++ unit_field))) switch_metadata-IsShortening
      (Runs-trans
        (int32_field-Runs (λ v. record empty_metadata { type_ = v }) 1 md.type_
          (name_field ++ (help_field ++ unit_field)) (omega arith) h (λ bytes. refl))
        (Runs-trans
          (string_field-Runs (λ b. record typed { metric_family_name = b }) 2 md.metric_family_name
            (help_field ++ unit_field) (omega arith)
            (front_IsU64 name_field (help_field ++ unit_field) from_name) (λ bytes. refl))
          (Runs-trans
            (string_field-Runs (λ b. record named { help = b }) 3 md.help unit_field (omega arith)
              (front_IsU64 help_field unit_field from_help) (λ bytes. refl))
            (last-Runs unit_field (
              string_field-Runs (λ b. record helped { unit = b }) 4 md.unit [] (omega arith)
                (back_IsU64 help_field unit_field from_help) (λ bytes. refl))))))
