-- ===== src/Prw/Proto/Wire/RoundTrip.antt =====
-- Round trips of the helpers of internal/prw/proto.go.
use metrics_governor.Prelude.{
  ℕ, zero, suc, ◌+◌, ◌*◌, ◌/◌, ◌%◌, ◌^◌, ◌≤◌, ◌<◌, ◌≡◌, refl, sym, ap, ◌∙◌, List, [], ◌∷◌, ◌++◌,
  append_assoc, none, some, Option-cases, inl, inr, length, length-append, take, drop, All, arith,
}
use native.Mathlib.Nat.{div-add-mod}
use native.Mathlib.Numerals.{towards_suc}
use metrics_governor.Prw.Proto.Wire.{
  varint_groups, varint, tag_of, zigzag, unzigzag, fixed64, uint64_le, varint_from, consume_varint,
  consume_signed_varint, consume_tag, consume_bytes, marshal_signed_varints,
  unmarshal_signed_varints, signed_varints_from, marshal_fixed64s, unmarshal_fixed64s, fixed64s_of,
}

abbrev pub IsU64 : ℕ → Type 0
IsU64 v = v < 2 ^ 64

next_place : (i : ℕ) → 2 ^ (7 * (i + 1)) ≡ 128 * 2 ^ (7 * i)
next_place i =
    let e : 7 * (i + 1) ≡ 7 * i + 7 = omega arith in
    let p : 2 ^ (7 * i + 7) ≡ 128 * 2 ^ (7 * i) = simp towards_suc (omega arith) in
    ap (λ k. 2 ^ k) e ∙ p

split_place : (w i : ℕ) → w * 2 ^ (7 * i) ≡ w % 128 * 2 ^ (7 * i) + w / 128 * 2 ^ (7 * (i + 1))
split_place w i = omega (
  arith,
  ap (λ (t : ℕ). t * 2 ^ (7 * i)) (div-add-mod w 128),
  ap (λ (t : ℕ). w / 128 * t) (next_place i),
)

length-varint_groups : (k v : ℕ) → 0 < length (varint_groups k v)
unfolding varint_groups
length-varint_groups zero v = omega arith
length-varint_groups (suc k) v = ground arith

varint_from-groups :
    (k left i v w : ℕ) (rest : List ℕ)
    → k < left
    → w < 128 ^ suc k
    → v + w * 2 ^ (7 * i) < 2 ^ 64
    → varint_from left i v (varint_groups k w ++ rest)
      ≡ some (v + w * 2 ^ (7 * i), i + length (varint_groups k w))
unfolding varint_from varint_groups
varint_from-groups k zero i v w rest h hw fits = absurd (omega arith)
varint_from-groups zero (suc left) i v w rest h hw fits = ground arith
varint_from-groups (suc k) (suc left) i v w rest h hw fits = ground (
  arith,
  split_place w i,
  varint_from-groups k left (i + 1) (v + w % 128 * 2 ^ (7 * i)) (w / 128) rest,
)

pub consume_varint-varint :
    (v : ℕ) (rest : List ℕ)
    → IsU64 v
    → consume_varint (varint v ++ rest) ≡ some (v, length (varint v))
unfolding consume_varint varint
consume_varint-varint v rest h = ground (arith, varint_from-groups 9 10 0 0 v rest)

pub unzigzag-zigzag : (v : ℕ) → IsU64 v → (unzigzag (zigzag v) ≡ v) × IsU64 (zigzag v)
unzigzag-zigzag v h = ground arith

pub consume_signed_varint-varint :
    (v : ℕ) (rest : List ℕ)
    → IsU64 v
    → consume_signed_varint (varint (zigzag v) ++ rest) ≡ some (v, length (varint (zigzag v)))
unfolding consume_signed_varint
consume_signed_varint-varint v rest h =
    ground
      (arith, consume_varint-varint (zigzag v) rest (unzigzag-zigzag v h).1, unzigzag-zigzag v h)

pub uint64_le-fixed64 : (v : ℕ) (rest : List ℕ) → IsU64 v → uint64_le (fixed64 v ++ rest) ≡ v
unfolding uint64_le fixed64
uint64_le-fixed64 v rest h = omega arith

pub drop-append {ℓ} : {A : Type ℓ} (xs ys : List A) → drop (length xs) (xs ++ ys) ≡ ys
drop-append [] ys = refl
drop-append (x ∷ xs) ys = drop-append xs ys

pub take-append {ℓ} : {A : Type ℓ} (xs ys : List A) → take (length xs) (xs ++ ys) ≡ xs
take-append [] ys = refl
take-append (x ∷ xs) ys = ap (λ l. x ∷ l) (take-append xs ys)

pub drop-drop {ℓ} :
    {A : Type ℓ} (xs ys zs : List A) → drop (length xs + length ys) (xs ++ (ys ++ zs)) ≡ zs
drop-drop xs ys zs =
    sym (ap (λ n. drop n (xs ++ (ys ++ zs))) (length-append xs ys))
    ∙ ap (drop (length (xs ++ ys))) (sym (append_assoc xs ys zs))
    ∙ drop-append (xs ++ ys) zs

pub consume_bytes-varint :
    (payload rest : List ℕ)
    → IsU64 (length payload)
    → consume_bytes (varint (length payload) ++ (payload ++ rest))
      ≡ some (payload, length (varint (length payload)) + length payload)
unfolding consume_bytes
consume_bytes-varint payload rest h = ground (
  arith,
  consume_varint-varint (length payload) (payload ++ rest) h,
  length-append (varint (length payload)) (payload ++ rest),
  length-append payload rest,
  drop-append (varint (length payload)) (payload ++ rest),
  take-append payload rest,
)

varint_from_positive :
    (left i v u n : ℕ) (bytes : List ℕ) → varint_from left i v bytes ≡ some (u, n) → i < n
unfolding varint_from
varint_from_positive zero i v u n bytes e = cc
varint_from_positive (suc left) i v u n [] e = cc
varint_from_positive (suc left) i v u n (b ∷ bytes) e =
    ground (arith, varint_from_positive left (i + 1) (v + b % 128 * 2 ^ (7 * i) % 2 ^ 64) u n bytes)

-- A tag takes a byte at least.
pub consume_tag_positive : (bytes : List ℕ) (f w n : ℕ) → consume_tag bytes ≡ some (f, w, n) → 0 < n
unfolding consume_tag consume_varint
consume_tag_positive bytes f w n e = elim (Option-cases (consume_varint bytes)) [
  | inl p ↦ ground (arith, p)
  | inr (r, p) ↦ ground (arith, p, varint_from_positive 10 0 0 r.0 r.1 bytes)
]

pub consume_tag_empty : consume_tag [] ≡ none
unfolding consume_tag consume_varint varint_from
consume_tag_empty = refl

pub consume_tag-varint :
    (f w : ℕ) (rest : List ℕ)
    → f < 100
    → w < 8
    → consume_tag (varint (tag_of f w) ++ rest) ≡ some (f, w, length (varint (tag_of f w)))
unfolding consume_tag
consume_tag-varint f w rest hf hw =
    ground (arith, consume_varint-varint (tag_of f w) rest (omega arith))

pub length-varint : (v : ℕ) → 0 < length (varint v)
unfolding varint
length-varint v = length-varint_groups 9 v

signed_varints_from-step :
    (fuel v n : ℕ) (bytes : List ℕ)
    → 0 < length bytes
    → consume_signed_varint bytes ≡ some (v, n)
    → signed_varints_from (suc fuel) bytes ≡ v ∷ signed_varints_from fuel (drop n bytes)
unfolding signed_varints_from
signed_varints_from-step fuel v n [] h e = absurd (omega arith)
signed_varints_from-step fuel v n (b ∷ bytes) h e =
    ap (λ o. elim o [ none ↦ [] | some r ↦ r.0 ∷ signed_varints_from fuel (drop r.1 (b ∷ bytes)) ])
      e

signed_varints_from-marshal :
    (fuel : ℕ) (values : List ℕ)
    → length (marshal_signed_varints values) ≤ fuel
    → All IsU64 values
    → signed_varints_from fuel (marshal_signed_varints values) ≡ values
unfolding signed_varints_from marshal_signed_varints
signed_varints_from-marshal zero [] h a = refl
signed_varints_from-marshal (suc fuel) [] h a = refl
signed_varints_from-marshal zero (v ∷ values) h a = absurd (
    omega (
      arith,
      length-varint (zigzag v),
      length-append (varint (zigzag v)) (marshal_signed_varints values),
    ))
signed_varints_from-marshal (suc fuel) (v ∷ values) h a =
    let bytes = varint (zigzag v) in
    let more = marshal_signed_varints values in
    let sum = length-append bytes more in
    signed_varints_from-step fuel v (length bytes) (bytes ++ more)
      (omega (arith, sum, length-varint (zigzag v))) (consume_signed_varint-varint v more a.0)
    ∙ ap (λ l. v ∷ signed_varints_from fuel l) (drop-append bytes more)
    ∙ ap (λ l. v ∷ l)
        (signed_varints_from-marshal fuel values (omega (arith, sum, length-varint (zigzag v))) a.1)

pub unmarshal_signed_varints-marshal_signed_varints :
    (values : List ℕ)
    → All IsU64 values
    → unmarshal_signed_varints (marshal_signed_varints values) ≡ values
unfolding unmarshal_signed_varints
unmarshal_signed_varints-marshal_signed_varints values a =
    signed_varints_from-marshal (length (marshal_signed_varints values)) values (omega arith) a

length-fixed64s : (values : List ℕ) → length (marshal_fixed64s values) ≡ length values * 8
unfolding marshal_fixed64s fixed64
length-fixed64s [] = refl
length-fixed64s (v ∷ values) = omega (arith, length-fixed64s values)

fixed64s_of-marshal :
    (values : List ℕ)
    → All IsU64 values
    → fixed64s_of (length values) (marshal_fixed64s values) ≡ values
unfolding fixed64s_of marshal_fixed64s fixed64
fixed64s_of-marshal [] a = refl
fixed64s_of-marshal (v ∷ values) a =
    ap (λ n. n ∷ fixed64s_of (length values) (marshal_fixed64s values))
      (uint64_le-fixed64 v (marshal_fixed64s values) a.0)
    ∙ ap (λ l. v ∷ l) (fixed64s_of-marshal values a.1)

pub unmarshal_fixed64s-marshal_fixed64s :
    (values : List ℕ) → All IsU64 values → unmarshal_fixed64s (marshal_fixed64s values) ≡ values
unfolding unmarshal_fixed64s
unmarshal_fixed64s-marshal_fixed64s values a =
    let e : length (marshal_fixed64s values) / 8 ≡ length values =
      omega (arith, length-fixed64s values) in
    ap (λ n. fixed64s_of n (marshal_fixed64s values)) e ∙ fixed64s_of-marshal values a
