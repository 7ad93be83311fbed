-- ===== src/Prw/Proto/Loop/Fields.antt =====
-- One round of the loop on each kind of field that is written.
use metrics_governor.Prelude.{
  ℕ, ◌+◌, ◌≤◌, ◌<◌, ◌≡◌, refl, sym, ap, subst, ◌∙◌, Bool, true, false, List, [], ◌∷◌, ◌++◌,
  append_assoc, append-nil, none, some, length, length-append, drop, arith, if◌then◌else◌, All,
}
use metrics_governor.Prw.Proto.Wire.{
  varint, tag_of, zigzag, fixed64, tag_varint, tag_varint_signed, tag_fixed64, tag_length_delim,
}
use metrics_governor.Prw.Proto.Wire.RoundTrip.{
  IsU64, consume_tag-varint, consume_varint-varint, consume_signed_varint-varint,
  consume_bytes-varint, uint64_le-fixed64, drop-append, drop-drop,
}
use metrics_governor.Prw.Proto.Loop.{
  Decoded, ok, err, invalid_tag, invalid_varint, invalid_length, and_then, on_bytes, on_varint,
  on_signed_varint, on_fixed64, Switch, round,
}
use metrics_governor.Prw.Proto.Loop.Runs.{Runs, done, next, Runs-trans}
use metrics_governor.Prw.Proto.Messages.{repeated}

module _ {A : Type 0} (switch : Switch A) where
  pub round-tag :
      (a : A) (f w : ℕ) (bytes : List ℕ)
      → f < 100
      → w < 8
      → round switch a (varint (tag_of f w) ++ bytes) ≡ switch a f w bytes
  unfolding round
  round-tag a f w bytes hf hw =
      ap
        (λ o. elim o [
          | none ↦ err invalid_tag
          | some t ↦ switch a t.0 t.1 (drop t.2 (varint (tag_of f w) ++ bytes))
        ])
        (consume_tag-varint f w bytes hf hw)
      ∙ ap (switch a f w) (drop-append (varint (tag_of f w)) bytes)

  -- A field is a tag and a payload.
  field_Runs :
      (a c : A) (f w : ℕ) (payload rest : List ℕ)
      → f < 100
      → w < 8
      → switch a f w (payload ++ rest) ≡ ok (c, rest)
      → Runs switch a ((varint (tag_of f w) ++ payload) ++ rest) c rest
  field_Runs a c f w payload rest hf hw h =
      next
        (ap (round switch a) (append_assoc (varint (tag_of f w)) payload rest)
          ∙ round-tag a f w (payload ++ rest) hf hw
          ∙ h)
        done

module _ {A : Type 0} where
  pub on_varint-varint :
      (make : ℕ → A) (v : ℕ) (rest : List ℕ)
      → IsU64 v
      → on_varint make (varint v ++ rest) ≡ ok (make v, rest)
  unfolding on_varint
  on_varint-varint make v rest h =
      ap
        (λ o. elim o [
          | none ↦ err invalid_varint
          | some r ↦ ok (make r.0, drop r.1 (varint v ++ rest))
        ])
        (consume_varint-varint v rest h)
      ∙ ap (λ r. ok (make v, r)) (drop-append (varint v) rest)

  pub on_signed_varint-varint :
      (make : ℕ → A) (v : ℕ) (rest : List ℕ)
      → IsU64 v
      → on_signed_varint make (varint (zigzag v) ++ rest) ≡ ok (make v, rest)
  unfolding on_signed_varint
  on_signed_varint-varint make v rest h =
      ap
        (λ o. elim o [
          | none ↦ err invalid_varint
          | some r ↦ ok (make r.0, drop r.1 (varint (zigzag v) ++ rest))
        ])
        (consume_signed_varint-varint v rest h)
      ∙ ap (λ r. ok (make v, r)) (drop-append (varint (zigzag v)) rest)

  pub on_fixed64-fixed64 :
      (make : ℕ → A) (v : ℕ) (rest : List ℕ)
      → IsU64 v
      → on_fixed64 make (fixed64 v ++ rest) ≡ ok (make v, rest)
  unfolding on_fixed64 fixed64
  on_fixed64-fixed64 make v rest h = ground (arith, uint64_le-fixed64 v rest h)

  pub on_bytes-delim :
      (make : List ℕ → Decoded A) (c : A) (payload rest : List ℕ)
      → IsU64 (length payload)
      → make payload ≡ ok c
      → on_bytes make ((varint (length payload) ++ payload) ++ rest) ≡ ok (c, rest)
  unfolding on_bytes and_then
  on_bytes-delim make c payload rest h m =
      ap (on_bytes make) (append_assoc (varint (length payload)) payload rest)
      ∙ ap
          (λ o. elim o [
            | none ↦ err invalid_length
            | some r ↦
                and_then (make r.0)
                  (λ a. ok (a, drop r.1 (varint (length payload) ++ (payload ++ rest))))
          ])
          (consume_bytes-varint payload rest h)
      ∙ ap
          (λ d. and_then d (λ a. ok (
            a,
            drop (length (varint (length payload)) + length payload)
                (varint (length payload) ++ (payload ++ rest)),
          )))
          m
      ∙ ap (λ r. ok (c, r)) (drop-drop (varint (length payload)) payload rest)

module _ {A : Type 0} {switch : Switch A} where
  pub tag_varint-Runs :
      (make : ℕ → A) (f v : ℕ) (a : A) (rest : List ℕ)
      → f < 100
      → IsU64 v
      → ((bytes : List ℕ) → switch a f 0 bytes ≡ on_varint make bytes)
      → Runs switch a (tag_varint f v ++ rest) (make v) rest
  unfolding tag_varint
  tag_varint-Runs make f v a rest hf h e =
      field_Runs switch a (make v) f 0 (varint v) rest hf (omega arith)
        (e _ ∙ on_varint-varint make v rest h)

  pub tag_varint_signed-Runs :
      (make : ℕ → A) (f v : ℕ) (a : A) (rest : List ℕ)
      → f < 100
      → IsU64 v
      → ((bytes : List ℕ) → switch a f 0 bytes ≡ on_signed_varint make bytes)
      → Runs switch a (tag_varint_signed f v ++ rest) (make v) rest
  unfolding tag_varint_signed
  tag_varint_signed-Runs make f v a rest hf h e =
      field_Runs switch a (make v) f 0 (varint (zigzag v)) rest hf (omega arith)
        (e _ ∙ on_signed_varint-varint make v rest h)

  pub tag_fixed64-Runs :
      (make : ℕ → A) (f v : ℕ) (a : A) (rest : List ℕ)
      → f < 100
      → IsU64 v
      → ((bytes : List ℕ) → switch a f 1 bytes ≡ on_fixed64 make bytes)
      → Runs switch a (tag_fixed64 f v ++ rest) (make v) rest
  unfolding tag_fixed64
  tag_fixed64-Runs make f v a rest hf h e =
      field_Runs switch a (make v) f 1 (fixed64 v) rest hf (omega arith)
        (e _ ∙ on_fixed64-fixed64 make v rest h)

  pub tag_length_delim-Runs :
      (make : List ℕ → Decoded A) (f : ℕ) (payload : List ℕ) (a c : A) (rest : List ℕ)
      → f < 100
      → IsU64 (length payload)
      → make payload ≡ ok c
      → ((bytes : List ℕ) → switch a f 2 bytes ≡ on_bytes make bytes)
      → Runs switch a (tag_length_delim f payload ++ rest) c rest
  unfolding tag_length_delim
  tag_length_delim-Runs make f payload a c rest hf h m e =
      field_Runs switch a c f 2 (varint (length payload) ++ payload) rest hf (omega arith)
        (e _ ∙ on_bytes-delim make c payload rest h m)

  -- A field that is left out where its value is the default.
  pub unless-Runs :
      {X : Type 0} (put : X → A) (x blank : X) (b : Bool) (bytes rest : List ℕ)
      → (b ≡ true → x ≡ blank)
      → Runs switch (put blank) (bytes ++ rest) (put x) rest
      → Runs switch (put blank) ((if b then [] else bytes) ++ rest) (put x) rest
  unless-Runs put x blank true bytes rest e r =
      subst (λ y. Runs switch (put blank) rest (put y) rest) (sym (e refl)) done
  unless-Runs put x blank false bytes rest e r = r

pub length-tag_length_delim :
    (f : ℕ) (payload : List ℕ) → length payload ≤ length (tag_length_delim f payload)
unfolding tag_length_delim
length-tag_length_delim f payload = omega (
  arith,
  length-append (varint (tag_of f 2)) (varint (length payload) ++ payload),
  length-append (varint (length payload)) payload,
)

module _ {A X : Type 0} {switch : Switch A} (marshal : X → List ℕ)
    (decode : List ℕ → Decoded X) where
  -- Elements of which each is read back, in fields of one number.
  pub repeated-Runs :
      (put : List X → A) (f : ℕ) (xs ys : List X) (rest : List ℕ)
      → f < 100
      → IsU64 (length (repeated marshal f ys))
      → ((zs : List X) (bytes : List ℕ)
          → switch (put zs) f 2 bytes
            ≡ on_bytes (λ b. and_then (decode b) (λ x. ok (put (zs ++ x ∷ [])))) bytes)
      → All (λ y. IsU64 (length (marshal y)) → decode (marshal y) ≡ ok y) ys
      → Runs switch (put xs) (repeated marshal f ys ++ rest) (put (xs ++ ys)) rest
  unfolding repeated and_then
  repeated-Runs put f xs [] rest hf h e d =
      subst (λ zs. Runs switch (put xs) rest (put zs) rest) (sym (append-nil xs)) done
  repeated-Runs put f xs (y ∷ ys) rest hf h e d =
      let more = repeated marshal f ys in
      let sum = length-append (tag_length_delim f (marshal y)) more in
      let short : IsU64 (length (marshal y)) =
        omega (arith, sum, length-tag_length_delim f (marshal y)) in
      subst (λ bytes. Runs switch (put xs) bytes (put (xs ++ y ∷ ys)) rest)
        (sym (append_assoc (tag_length_delim f (marshal y)) more rest))
        (Runs-trans
          (tag_length_delim-Runs (λ b. and_then (decode b) (λ x. ok (put (xs ++ x ∷ [])))) f
            (marshal y) (put xs) (put (xs ++ y ∷ [])) (more ++ rest) hf short
            (ap (λ o. and_then o (λ x. ok (put (xs ++ x ∷ [])))) (d.0 short)) (e xs))
          (subst (λ zs. Runs switch (put (xs ++ y ∷ [])) (more ++ rest) (put zs) rest)
            (append_assoc xs (y ∷ []) ys)
            (repeated-Runs put f (xs ++ y ∷ []) ys rest hf (omega (arith, sum)) e d.1)))
