-- ===== src/Prw/Proto/Loop.antt =====
-- The loop `for len(data) > 0` that every unmarshal method of internal/prw/proto.go runs, with the
-- switch on the field number as a parameter, and the cases that the switches share.
pub mod Runs
pub mod Fields
use metrics_governor.Prelude.{
  ℕ, zero, suc, ◌+◌, ◌%◌, ◌^◌, Bool, true, false, not, List, [], ◌∷◌, Option, none, some, length,
  drop, ltb, ◌==◌, if◌then◌else◌,
}
use metrics_governor.Prw.Proto.Wire.{
  consume_varint, consume_signed_varint, consume_tag, consume_bytes, uint64_le,
}

pub data WireError : Type 0 where
  invalid_tag invalid_wire_type invalid_length invalid_varint insufficient_data unknown_wire_type :
      WireError

-- `panics` is a slice expression out of its bounds. `stuck` is no result of the source: the loop ran out of fuel.
pub data Decoded (A : Type 0) : Type 0 where
  ok : A → Decoded A
  err : WireError → Decoded A
  panics stuck : Decoded A

unfoldable pub and_then : {A B : Type 0} → Decoded A → (A → Decoded B) → Decoded B
and_then (ok a) f = f a
and_then (err e) f = err e
and_then panics f = panics
and_then stuck f = stuck

-- `data[n:]`
abbrev slice_from : ℕ → List ℕ → Decoded (List ℕ)
slice_from n bytes = if ltb (length bytes) n then panics else ok (drop n bytes)

unfoldable pub skip_fixed : ℕ → List ℕ → Decoded (List ℕ)
skip_fixed n bytes = if ltb (length bytes) n then err insufficient_data else ok (drop n bytes)

-- A varint that is not complete is skipped by -1. `int(length)` wraps, and so does the sum.
unfoldable pub skip_field : List ℕ → ℕ → Decoded (List ℕ)
unfolding skip_fixed
skip_field bytes wire_type =
    if wire_type == 0
    then elim (consume_varint bytes) [ none ↦ panics | some r ↦ slice_from r.1 bytes ]
    else if wire_type == 1
    then skip_fixed 8 bytes
    else if wire_type == 2
    then elim (consume_varint bytes) [
      | none ↦ err invalid_length
      | some r ↦ slice_from ((r.1 + r.0) % 2 ^ 64) bytes
    ]
    else if wire_type == 5
    then skip_fixed 4 bytes
    else err unknown_wire_type

module _ {A : Type 0} where
  -- The `default` of every switch.
  unfoldable pub skipped : A → ℕ → List ℕ → Decoded (A × List ℕ)
  skipped a wire_type bytes = and_then (skip_field bytes wire_type) (λ rest. ok (a, rest))

  abbrev pub expects : ℕ → ℕ → Decoded (A × List ℕ) → Decoded (A × List ℕ)
  expects wanted wire_type step = if wire_type == wanted then step else err invalid_wire_type

  -- A field of bytes, and what is made of them.
  unfoldable pub on_bytes : (List ℕ → Decoded A) → List ℕ → Decoded (A × List ℕ)
  on_bytes make bytes = elim (consume_bytes bytes) [
    | none ↦ err invalid_length
    | some r ↦ and_then (make r.0) (λ a. ok (a, drop r.1 bytes))
  ]

  unfoldable pub on_varint : (ℕ → A) → List ℕ → Decoded (A × List ℕ)
  on_varint make bytes = elim (consume_varint bytes) [
    | none ↦ err invalid_varint
    | some r ↦ ok (make r.0, drop r.1 bytes)
  ]

  unfoldable pub on_signed_varint : (ℕ → A) → List ℕ → Decoded (A × List ℕ)
  on_signed_varint make bytes = elim (consume_signed_varint bytes) [
    | none ↦ err invalid_varint
    | some r ↦ ok (make r.0, drop r.1 bytes)
  ]

  unfoldable pub on_fixed64 : (ℕ → A) → List ℕ → Decoded (A × List ℕ)
  on_fixed64 make bytes =
      if ltb (length bytes) 8
      then err insufficient_data
      else ok (make (uint64_le bytes), drop 8 bytes)

-- The switch: from the value so far, the field number, the wire type and the bytes after the tag, to the new value and
-- the bytes after the field.
abbrev pub Switch : Type 0 → Type 0
Switch A = A → ℕ → ℕ → List ℕ → Decoded (A × List ℕ)

module _ {A : Type 0} (switch : Switch A) where
  unfoldable pub round : A → List ℕ → Decoded (A × List ℕ)
  round a bytes = elim (consume_tag bytes) [
    | none ↦ err invalid_tag
    | some t ↦ switch a t.0 t.1 (drop t.2 bytes)
  ]

  unfoldable pub rounds : ℕ → A → List ℕ → Decoded A
  rounds fuel a [] = ok a
  rounds zero a (b ∷ bytes) = stuck
  rounds (suc fuel) a (b ∷ bytes) = and_then (round a (b ∷ bytes)) (λ r. rounds fuel r.0 r.1)

  -- Each round takes a byte at least.
  unfoldable pub unmarshal : A → List ℕ → Decoded A
  unmarshal a bytes = rounds (length bytes) a bytes
