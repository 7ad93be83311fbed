-- ===== src/Prw/Proto/Wire.antt =====
-- The helpers of internal/prw/proto.go on bytes. A byte slice is the list of its bytes, as numbers below
-- 256, and is never longer than 2^63. A uint64 is a number below 2^64; an int64, an int32 and a
-- float64 are the patterns of their bits. The encoders return what the source appends.
pub mod RoundTrip
use metrics_governor.Prelude.{
  ℕ, zero, suc, ◌+◌, ◌-◌, ◌*◌, ◌/◌, ◌%◌, ◌^◌, Bool, true, false, List, [], ◌∷◌, ◌++◌, Option, none,
  some, length, take, drop, ltb, leb, ◌==◌, if◌then◌else◌,
}

-- `byte(v)|0x80` is `v % 128 + 128`. After nine groups of seven bits a uint64 is below 2, so
-- the loop has ended.
unfoldable pub varint_groups : ℕ → ℕ → List ℕ
varint_groups zero v = v % 256 ∷ []
varint_groups (suc k) v =
    let rest = varint_groups k (v / 128) in if ltb v 128 then v ∷ [] else (v % 128 + 128) ∷ rest

-- `appendVarint`
unfoldable pub varint : ℕ → List ℕ
unfolding varint_groups
varint v = varint_groups 9 v

-- `fieldNum<<3 | wireType`
abbrev pub tag_of : ℕ → ℕ → ℕ
tag_of field_num wire_type = field_num * 8 + wire_type

unfoldable pub tag_varint : ℕ → ℕ → List ℕ
tag_varint field_num v = varint (tag_of field_num 0) ++ varint v

-- `uint64((v<<1)^(v>>63))`: a negative value has all its bits inverted.
abbrev pub zigzag : ℕ → ℕ
zigzag v = if ltb v (2 ^ 63) then v * 2 else (2 ^ 64 - 1 - v) * 2 + 1

unfoldable pub tag_varint_signed : ℕ → ℕ → List ℕ
tag_varint_signed field_num v = varint (tag_of field_num 0) ++ varint (zigzag v)

unfoldable pub fixed64 : ℕ → List ℕ
fixed64 v =
    v % 256
    ∷ v / 2 ^ 8 % 256
    ∷ v / 2 ^ 16 % 256
    ∷ v / 2 ^ 24 % 256
    ∷ v / 2 ^ 32 % 256
    ∷ v / 2 ^ 40 % 256
    ∷ v / 2 ^ 48 % 256
    ∷ v / 2 ^ 56 % 256
    ∷ []

unfoldable pub tag_fixed64 : ℕ → ℕ → List ℕ
tag_fixed64 field_num v = varint (tag_of field_num 1) ++ fixed64 v

unfoldable pub tag_length_delim : ℕ → List ℕ → List ℕ
tag_length_delim field_num bytes = varint (tag_of field_num 2) ++ (varint (length bytes) ++ bytes)

-- `v |= uint64(b&0x7F) << (7*i)`: the bits of `v` are below the place of the group, so the or is a sum.
unfoldable pub varint_from : ℕ → ℕ → ℕ → List ℕ → Option (ℕ × ℕ)
varint_from zero i v bytes = none
varint_from (suc left) i v [] = none
varint_from (suc left) i v (b ∷ bytes) =
    let v' = v + b % 128 * 2 ^ (7 * i) % 2 ^ 64 in
    let rest = varint_from left (i + 1) v' bytes in if ltb b 128 then some (v', i + 1) else rest

-- The value and the number of bytes read; `none` is -1.
unfoldable pub consume_varint : List ℕ → Option (ℕ × ℕ)
unfolding varint_from
consume_varint bytes = varint_from 10 0 0 bytes

-- `int64(uv>>1) ^ -int64(uv&1)`
abbrev pub unzigzag : ℕ → ℕ
unzigzag u = if u % 2 == 0 then u / 2 else 2 ^ 64 - 1 - u / 2

unfoldable pub consume_signed_varint : List ℕ → Option (ℕ × ℕ)
consume_signed_varint bytes = elim (consume_varint bytes) [
  | none ↦ none
  | some r ↦ some (unzigzag r.0, r.1)
]

-- The field number, the wire type and the number of bytes read.
unfoldable pub consume_tag : List ℕ → Option (ℕ × ℕ × ℕ)
consume_tag bytes = elim (consume_varint bytes) [
  | none ↦ none
  | some r ↦ some (r.0 / 8, r.0 % 8, r.1)
]

unfoldable pub consume_bytes : List ℕ → Option (List ℕ × ℕ)
consume_bytes bytes = elim (consume_varint bytes) [
  | none ↦ none
  | some r ↦
      if ltb (length bytes - r.1) r.0 then none else some (take r.0 (drop r.1 bytes), r.1 + r.0)
]

-- `binary.LittleEndian.Uint64(bytes[:8])`, where there are eight bytes.
unfoldable pub uint64_le : List ℕ → ℕ
uint64_le (b₀ ∷ b₁ ∷ b₂ ∷ b₃ ∷ b₄ ∷ b₅ ∷ b₆ ∷ b₇ ∷ bytes) =
    b₀
    + b₁ * 2 ^ 8
    + b₂ * 2 ^ 16
    + b₃ * 2 ^ 24
    + b₄ * 2 ^ 32
    + b₅ * 2 ^ 40
    + b₆ * 2 ^ 48
    + b₇ * 2 ^ 56
uint64_le _ = 0

unfoldable pub marshal_signed_varints : List ℕ → List ℕ
marshal_signed_varints [] = []
marshal_signed_varints (v ∷ values) = varint (zigzag v) ++ marshal_signed_varints values

-- The loop stops at the first varint that is not complete. Each round takes a byte at least.
unfoldable pub signed_varints_from : ℕ → List ℕ → List ℕ
signed_varints_from zero bytes = []
signed_varints_from (suc fuel) [] = []
signed_varints_from (suc fuel) (b ∷ bytes) = elim (consume_signed_varint (b ∷ bytes)) [
  | none ↦ []
  | some r ↦ r.0 ∷ signed_varints_from fuel (drop r.1 (b ∷ bytes))
]

unfoldable pub unmarshal_signed_varints : List ℕ → List ℕ
unfolding signed_varints_from
unmarshal_signed_varints bytes = signed_varints_from (length bytes) bytes

unfoldable pub marshal_fixed64s : List ℕ → List ℕ
marshal_fixed64s [] = []
marshal_fixed64s (v ∷ values) = fixed64 v ++ marshal_fixed64s values

unfoldable pub fixed64s_of : ℕ → List ℕ → List ℕ
unfolding uint64_le
fixed64s_of zero bytes = []
fixed64s_of (suc count) bytes = uint64_le bytes ∷ fixed64s_of count (drop 8 bytes)

unfoldable pub unmarshal_fixed64s : List ℕ → List ℕ
unfolding fixed64s_of
unmarshal_fixed64s bytes = fixed64s_of (length bytes / 8) bytes
