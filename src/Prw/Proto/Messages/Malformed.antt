-- ===== src/Prw/Proto/Messages/Malformed.antt =====
-- Requests with an unknown field that is not complete.
use metrics_governor.Prelude.{
  ℕ, ◌+◌, ◌^◌, ◌<◌, ◌≡◌, ◌≢◌, ap, ◌∙◌, List, [], ◌∷◌, ◌++◌, none, some, length, length-append,
  arith,
}
use metrics_governor.Prw.Proto.Wire.{varint, tag_of, consume_varint}
use metrics_governor.Prw.Proto.Wire.RoundTrip.{length-varint}
use metrics_governor.Prw.Proto.Loop.{
  panics, and_then, skip_field, skipped, Switch, round, rounds, unmarshal,
}
use metrics_governor.Prw.Proto.Loop.Fields.{round-tag}
use metrics_governor.Prw.Proto.Messages.Request.{switch_request, unmarshal_request, empty_request}

module _ {A : Type 0} (switch : Switch A) where
  panics_at_first :
      (a : A) (bytes : List ℕ)
      → 0 < length bytes
      → round switch a bytes ≡ panics
      → unmarshal switch a bytes ≡ panics
  unfolding unmarshal rounds and_then
  panics_at_first a [] h e = absurd (omega arith)
  panics_at_first a (b ∷ bytes) h e =
      ap (λ d. and_then d (λ r. rounds switch (length bytes) r.0 r.1)) e

unknown_field :
    (f w : ℕ) (bytes : List ℕ)
    → f ≢ 1
    → f ≢ 3
    → skip_field bytes w ≡ panics
    → switch_request empty_request f w bytes ≡ panics
unfolding switch_request skipped and_then
unknown_field f w bytes h1 h3 e = ground (arith, e)

unknown_field_panics :
    (f w : ℕ) (bytes : List ℕ)
    → f < 100
    → w < 8
    → f ≢ 1
    → f ≢ 3
    → skip_field bytes w ≡ panics
    → unmarshal_request (varint (tag_of f w) ++ bytes) ≡ panics
unfolding unmarshal_request
unknown_field_panics f w bytes hf hw h1 h3 e =
    panics_at_first switch_request empty_request (varint (tag_of f w) ++ bytes)
      (omega (arith, length-append (varint (tag_of f w)) bytes, length-varint (tag_of f w)))
      (round-tag switch_request empty_request f w bytes hf hw ∙ unknown_field f w bytes h1 h3 e)

-- A request that starts with an unknown field, its number neither 1 nor 3 and below 100, panics where the field is a
-- varint that is not complete, and where it is of bytes and announces a length n with which the field,
-- below 2^63 with its announcement, is longer than what is left.
pub unmarshal_request_panics :
    (f n k : ℕ) (bytes : List ℕ)
    → f < 100
    → f ≢ 1
    → f ≢ 3
    → (consume_varint bytes ≡ none → unmarshal_request (varint (tag_of f 0) ++ bytes) ≡ panics)
      × (consume_varint bytes ≡ some (n, k)
          → length bytes < k + n
          → k + n < 2 ^ 63
          → unmarshal_request (varint (tag_of f 2) ++ bytes) ≡ panics)
unfolding skip_field
unmarshal_request_panics f n k bytes hf h1 h3 = (
  λ e. unknown_field_panics f 0 bytes hf (omega arith) h1 h3 (ground (arith, e)),
  λ e over small. unknown_field_panics f 2 bytes hf (omega arith) h1 h3 (ground (arith, e)),
)
