-- ===== src/Prw/Proto/RoundTrip/Fields.antt =====
-- The fields of native histograms. A float64 field that is -0.0 is not written.
use metrics_governor.Prelude.{
  ℕ, ◌^◌, ◌<◌, ◌≡◌, ◌≢◌, refl, ap, subst, true, List, [], ◌∷◌, ◌++◌, length, All, All-imp, ◌==◌,
  if◌then◌else◌, arith,
}
use metrics_governor.Prw.Proto.Wire.{tag_varint, tag_varint_signed, tag_fixed64, tag_length_delim}
use metrics_governor.Prw.Proto.Wire.RoundTrip.{IsU64}
use metrics_governor.Prw.Proto.Loop.{
  Switch, ok, and_then, on_bytes, on_varint, on_signed_varint, on_fixed64,
}
use metrics_governor.Prw.Proto.Loop.Runs.{Runs, Runs-trans, unmarshal-Runs}
use metrics_governor.Prw.Proto.Loop.Fields.{
  tag_varint-Runs, tag_varint_signed-Runs, tag_fixed64-Runs, tag_length_delim-Runs, unless-Runs,
  repeated-Runs, length-tag_length_delim,
}
use metrics_governor.Prw.Proto.Messages.{BucketSpan, sign_extend, low_32, is_zero_float, repeated}
use metrics_governor.Prw.Proto.Messages.Native.{
  marshal_span, switch_span, unmarshal_span, empty_span, count_field, float_field, packed_field,
}
use metrics_governor.Prw.Proto.Messages.Termination.{switch_span-IsShortening}
use metrics_governor.Prw.Proto.RoundTrip.{IsU32, last-Runs, sign_extend-IsU64, low_32-sign_extend}

abbrev pub IsEncodableSpan : BucketSpan → Type 0
IsEncodableSpan s = IsU32 s.offset × IsU32 s.length_

low_32_small : (v : ℕ) → IsU32 v → low_32 v ≡ v
low_32_small v h = omega arith

module _ {A : Type 0} {switch : Switch A} where
  -- An int32 in zigzag.
  signed_32-Runs :
      (put : ℕ → A) (f v : ℕ) (a : A) (rest : List ℕ)
      → f < 100
      → IsU32 v
      → ((bytes : List ℕ) → switch a f 0 bytes ≡ on_signed_varint (λ u. put (low_32 u)) bytes)
      → Runs switch a (tag_varint_signed f (sign_extend v) ++ rest) (put v) rest
  signed_32-Runs put f v a rest hf h e =
      subst (λ u. Runs switch a (tag_varint_signed f (sign_extend v) ++ rest) (put u) rest)
        (low_32-sign_extend v h)
        (tag_varint_signed-Runs (λ u. put (low_32 u)) f (sign_extend v) a rest hf
          (sign_extend-IsU64 v h) e)

unmarshal_span-marshal_span :
    (s : BucketSpan) → IsEncodableSpan s → unmarshal_span (marshal_span s) ≡ ok s
unfolding marshal_span unmarshal_span switch_span
unmarshal_span-marshal_span s h =
    let offset_field = tag_varint_signed 1 (sign_extend s.offset) in
    let length_field = tag_varint 2 s.length_ in
    let at : BucketSpan = record empty_span { offset = s.offset } in
    unmarshal-Runs switch_span empty_span s (offset_field ++ length_field) switch_span-IsShortening
      (Runs-trans
        (signed_32-Runs (λ v. record empty_span { offset = v }) 1 s.offset empty_span length_field
          (omega arith) h.0 (λ bytes. refl))
        (last-Runs length_field (
          subst (λ u. Runs switch_span at (length_field ++ []) (record at { length_ = u }) [])
            (low_32_small s.length_ h.1)
            (tag_varint-Runs (λ v. record at { length_ = low_32 v }) 2 s.length_ at [] (omega arith)
              (omega (arith, h.1)) (λ bytes. refl)))))

-- A float64 that is not -0.0.
abbrev pub IsWritten : ℕ → Type 0
IsWritten v = IsU64 v × (v ≢ 2 ^ 63)

zero_float : (v : ℕ) → IsWritten v → is_zero_float v ≡ true → v ≡ 0
zero_float v h e = ground (arith, h)

empty_list : (vs : List ℕ) → (length vs == 0) ≡ true → vs ≡ []
empty_list [] e = refl
empty_list (v ∷ vs) e = absurd (ground arith)

pub packed_IsU64 :
    (pack : List ℕ → List ℕ) (f : ℕ) (vs : List ℕ)
    → pack [] ≡ []
    → IsU64 (length (packed_field pack f vs))
    → IsU64 (length (pack vs))
packed_IsU64 pack f [] z h = omega (arith, ap length z)
packed_IsU64 pack f (v ∷ vs) z h = ground (arith, length-tag_length_delim f (pack (v ∷ vs)))

module _ {A : Type 0} {switch : Switch A} where
  pub count_field-Runs :
      (put : ℕ → A) (f v : ℕ) (rest : List ℕ)
      → f < 100
      → IsU64 v
      → ((bytes : List ℕ) → switch (put 0) f 0 bytes ≡ on_varint put bytes)
      → Runs switch (put 0) (count_field f v ++ rest) (put v) rest
  count_field-Runs put f v rest hf h e =
      unless-Runs put v 0 (v == 0) (tag_varint f v) rest (λ z. ground arith)
        (tag_varint-Runs put f v (put 0) rest hf h e)

  pub float_field-Runs :
      (put : ℕ → A) (f v : ℕ) (rest : List ℕ)
      → f < 100
      → IsWritten v
      → ((bytes : List ℕ) → switch (put 0) f 1 bytes ≡ on_fixed64 put bytes)
      → Runs switch (put 0) (float_field f v ++ rest) (put v) rest
  float_field-Runs put f v rest hf h e =
      unless-Runs put v 0 (is_zero_float v) (tag_fixed64 f v) rest (zero_float v h)
        (tag_fixed64-Runs put f v (put 0) rest hf h.0 e)

  pub schema_field-Runs :
      (put : ℕ → A) (f v : ℕ) (rest : List ℕ)
      → f < 100
      → IsU32 v
      → ((bytes : List ℕ) → switch (put 0) f 0 bytes ≡ on_signed_varint (λ u. put (low_32 u)) bytes)
      → Runs switch
          (put 0)
          ((if v == 0 then [] else tag_varint_signed f (sign_extend v)) ++ rest)
          (put v)
          rest
  schema_field-Runs put f v rest hf h e =
      unless-Runs put v 0 (v == 0) (tag_varint_signed f (sign_extend v)) rest (λ z. ground arith)
        (signed_32-Runs put f v (put 0) rest hf h e)

  pub packed_field-Runs :
      (pack unpack : List ℕ → List ℕ) (put : List ℕ → A) (f : ℕ) (vs rest : List ℕ)
      → f < 100
      → unpack (pack vs) ≡ vs
      → IsU64 (length (pack vs))
      → ((bytes : List ℕ) → switch (put []) f 2 bytes ≡ on_bytes (λ b. ok (put (unpack b))) bytes)
      → Runs switch (put []) (packed_field pack f vs ++ rest) (put vs) rest
  packed_field-Runs pack unpack put f vs rest hf p h e =
      unless-Runs put vs [] (length vs == 0) (tag_length_delim f (pack vs)) rest (empty_list vs) (
        tag_length_delim-Runs (λ b. ok (put (unpack b))) f (pack vs) (put []) (put vs) rest hf h
          (ap (λ us. ok (put us)) p) e)

  pub spans-Runs :
      (put : List BucketSpan → A) (f : ℕ) (ss : List BucketSpan) (rest : List ℕ)
      → f < 100
      → All IsEncodableSpan ss
      → IsU64 (length (repeated marshal_span f ss))
      → ((zs : List BucketSpan) (bytes : List ℕ)
          → switch (put zs) f 2 bytes
            ≡ on_bytes (λ b. and_then (unmarshal_span b) (λ x. ok (put (zs ++ x ∷ [])))) bytes)
      → Runs switch (put []) (repeated marshal_span f ss ++ rest) (put ss) rest
  spans-Runs put f ss rest hf a h e =
      repeated-Runs marshal_span unmarshal_span put f [] ss rest hf h e
        (All-imp ss (λ s i short. unmarshal_span-marshal_span s i) a)
