-- ===== src/Prw/Proto/Loop/Runs.antt =====
-- Runs of the loop that unmarshals in internal/prw/proto.go.
use metrics_governor.Prelude.{
  ℕ, zero, suc, ◌≤◌, ◌<◌, ◌≡◌, refl, ap, subst, ◌∙◌, Bool, true, false, List, [], ◌∷◌, Option, none,
  some, length, length-drop, drop, arith, if◌then◌else◌,
}
use metrics_governor.Prw.Proto.Wire.{consume_tag, consume_bytes}
use metrics_governor.Prw.Proto.Wire.RoundTrip.{consume_tag_positive, consume_tag_empty}
use metrics_governor.Prw.Proto.Loop.{
  Decoded, ok, err, invalid_tag, invalid_length, panics, stuck, and_then, skip_field, skip_fixed,
  skipped, expects, on_bytes, on_varint, on_signed_varint, on_fixed64, Switch, round, rounds,
  unmarshal,
}

-- A step that ends, and reads on behind where it was.
unfoldable pub Shortens : {A : Type 0} → ℕ → Decoded (A × List ℕ) → Type 0
Shortens n (ok r) = length r.1 ≤ n
Shortens n (err e) = Unit
Shortens n panics = Unit
Shortens n stuck = ⊥

-- A decoder of a message that ends.
unfoldable pub Ends : {A : Type 0} → Decoded A → Type 0
Ends (ok a) = Unit
Ends (err e) = Unit
Ends panics = Unit
Ends stuck = ⊥

drop_le : (n : ℕ) (bytes : List ℕ) → length (drop n bytes) ≤ length bytes
drop_le n bytes = omega (arith, length-drop n bytes)

module _ {A : Type 0} where
  pub skipped-Shortens :
      (a : A) (w : ℕ) (bytes : List ℕ) → Shortens (length bytes) (skipped a w bytes)
  unfolding skipped skip_field skip_fixed Shortens and_then
  skipped-Shortens a w bytes = grind (arith, drop_le)

  pub on_varint-Shortens :
      (make : ℕ → A) (bytes : List ℕ) → Shortens (length bytes) (on_varint make bytes)
  unfolding on_varint Shortens
  on_varint-Shortens make bytes = grind (arith, drop_le)

  pub on_signed_varint-Shortens :
      (make : ℕ → A) (bytes : List ℕ) → Shortens (length bytes) (on_signed_varint make bytes)
  unfolding on_signed_varint Shortens
  on_signed_varint-Shortens make bytes = grind (arith, drop_le)

  pub on_fixed64-Shortens :
      (make : ℕ → A) (bytes : List ℕ) → Shortens (length bytes) (on_fixed64 make bytes)
  unfolding on_fixed64 Shortens
  on_fixed64-Shortens make bytes = grind (arith, drop_le)

  and_then-Shortens :
      (n : ℕ) (d : Decoded A) (rest : List ℕ)
      → Ends d
      → length rest ≤ n
      → Shortens n (and_then d (λ a. ok (a, rest)))
  unfolding and_then Shortens Ends
  and_then-Shortens n (ok a) rest e h = h
  and_then-Shortens n (err x) rest e h = tt
  and_then-Shortens n panics rest e h = tt
  and_then-Shortens n stuck rest e h = e

  on_bytes-at :
      (make : List ℕ → Decoded A) (bytes : List ℕ) (o : Option (List ℕ × ℕ))
      → ((payload : List ℕ) → Ends (make payload))
      → Shortens (length bytes) (elim o [
        | none ↦ err invalid_length
        | some r ↦ and_then (make r.0) (λ a. ok (a, drop r.1 bytes))
      ])
  unfolding Shortens
  on_bytes-at make bytes none e = tt
  on_bytes-at make bytes (some r) e =
      and_then-Shortens (length bytes) (make r.0) (drop r.1 bytes) (e r.0) (drop_le r.1 bytes)

  pub on_bytes-Shortens :
      (make : List ℕ → Decoded A) (bytes : List ℕ)
      → ((payload : List ℕ) → Ends (make payload))
      → Shortens (length bytes) (on_bytes make bytes)
  unfolding on_bytes
  on_bytes-Shortens make bytes e = on_bytes-at make bytes (consume_bytes bytes) e

  pub expects-Shortens :
      (n wanted w : ℕ) (step : Decoded (A × List ℕ))
      → Shortens n step
      → Shortens n (expects wanted w step)
  unfolding Shortens
  expects-Shortens n wanted w step s = ground arith

  pub case-Shortens :
      (n : ℕ) (b : Bool) (x y : Decoded (A × List ℕ))
      → Shortens n x
      → Shortens n y
      → Shortens n (if b then x else y)
  case-Shortens n true x y s t = s
  case-Shortens n false x y s t = t

  pub ok-Ends : (a : A) → Ends (ok a)
  unfolding Ends
  ok-Ends a = tt

-- What is made of an element that was decoded.
pub and_then_ok-Ends :
    {A B : Type 0} (d : Decoded A) (f : A → B) → Ends d → Ends (and_then d (λ a. ok (f a)))
unfolding and_then Ends
and_then_ok-Ends (ok a) f e = tt
and_then_ok-Ends (err x) f e = tt
and_then_ok-Ends panics f e = tt
and_then_ok-Ends stuck f e = e

-- What the loop needs of a switch.
abbrev pub IsShortening : {A : Type 0} → Switch A → Type 0
IsShortening {A} switch =
    (a : A) (f w : ℕ) (bytes : List ℕ) → Shortens (length bytes) (switch a f w bytes)

module _ {A : Type 0} (switch : Switch A) (short : IsShortening switch) where
  less_Shortens : (m n : ℕ) (d : Decoded (A × List ℕ)) → m ≤ n → Shortens m d → Shortens n d
  unfolding Shortens
  less_Shortens m n (ok r) h s = omega arith
  less_Shortens m n (err e) h s = tt
  less_Shortens m n panics h s = tt
  less_Shortens m n stuck h s = s

  drop_less : (n : ℕ) (b : ℕ) (bytes : List ℕ) → 0 < n → length (drop n (b ∷ bytes)) ≤ length bytes
  drop_less n b bytes h = omega (arith, length-drop n (b ∷ bytes))

  round-at :
      (a : A) (b : ℕ) (bytes : List ℕ) (o : Option (ℕ × ℕ × ℕ))
      → consume_tag (b ∷ bytes) ≡ o
      → Shortens
          (length bytes)
          (elim o [ none ↦ err invalid_tag | some t ↦ switch a t.0 t.1 (drop t.2 (b ∷ bytes)) ])
  unfolding Shortens
  round-at a b bytes none p = tt
  round-at a b bytes (some t) p =
      less_Shortens (length (drop t.2 (b ∷ bytes))) (length bytes)
        (switch a t.0 t.1 (drop t.2 (b ∷ bytes)))
        (drop_less t.2 b bytes (consume_tag_positive (b ∷ bytes) t.0 t.1 t.2 p))
        (short a t.0 t.1 (drop t.2 (b ∷ bytes)))

  round-Shortens :
      (a : A) (b : ℕ) (bytes : List ℕ) → Shortens (length bytes) (round switch a (b ∷ bytes))
  unfolding round
  round-Shortens a b bytes = round-at a b bytes (consume_tag (b ∷ bytes)) refl

  and_then-Ends :
      (n : ℕ) (d : Decoded (A × List ℕ)) (f : A × List ℕ → Decoded A)
      → Shortens n d
      → ((r : A × List ℕ) → length r.1 ≤ n → Ends (f r))
      → Ends (and_then d f)
  unfolding and_then Shortens Ends
  and_then-Ends n (ok r) f s h = h r s
  and_then-Ends n (err e) f s h = tt
  and_then-Ends n panics f s h = tt
  and_then-Ends n stuck f s h = s

  rounds-Ends :
      (fuel : ℕ) (a : A) (bytes : List ℕ) → length bytes ≤ fuel → Ends (rounds switch fuel a bytes)
  unfolding rounds Ends
  rounds-Ends fuel a [] h = tt
  rounds-Ends zero a (b ∷ bytes) h = absurd (omega arith)
  rounds-Ends (suc fuel) a (b ∷ bytes) h =
      and_then-Ends fuel (round switch a (b ∷ bytes)) (λ r. rounds switch fuel r.0 r.1)
        (less_Shortens (length bytes) fuel (round switch a (b ∷ bytes)) (omega arith)
          (round-Shortens a b bytes))
        (λ r s. rounds-Ends fuel r.0 r.1 s)

  -- The loop ends on all bytes: its fuel is enough.
  pub unmarshal-Ends : (a : A) (bytes : List ℕ) → Ends (unmarshal switch a bytes)
  unfolding unmarshal
  unmarshal-Ends a bytes = rounds-Ends (length bytes) a bytes (omega arith)

-- Rounds from a value and bytes to a value and the bytes that are left.
pub data Runs {A : Type 0} (switch : Switch A) : A → List ℕ → A → List ℕ → Type 0 where
  done : {a : A} {bytes : List ℕ} → Runs switch a bytes a bytes
  next :
      {a c e : A} {bytes bytes' rest : List ℕ}
      → round switch a bytes ≡ ok (c, bytes')
      → Runs switch c bytes' e rest
      → Runs switch a bytes e rest

pub Runs-trans :
    {A : Type 0} {switch : Switch A} {a c e : A} {bytes bytes' rest : List ℕ}
    → Runs switch a bytes c bytes'
    → Runs switch c bytes' e rest
    → Runs switch a bytes e rest
Runs-trans done s = s
Runs-trans (next p r) s = next p (Runs-trans r s)

module _ {A : Type 0} {switch : Switch A} where
  rounds-Runs :
      (fuel : ℕ) {a e : A} {bytes : List ℕ}
      → Runs switch a bytes e []
      → Ends (rounds switch fuel a bytes)
      → rounds switch fuel a bytes ≡ ok e
  unfolding rounds Ends round and_then
  rounds-Runs fuel done h = refl
  rounds-Runs fuel {bytes = []} (next p r) h = ground (arith, consume_tag_empty, p)
  rounds-Runs zero {bytes = b ∷ bs} (next p r) h = absurd h
  rounds-Runs (suc fuel) {bytes = b ∷ bs} (next p r) h =
      ap (λ d. and_then d (λ x. rounds switch fuel x.0 x.1)) p
      ∙ rounds-Runs fuel r (subst (λ d. Ends (and_then d (λ x. rounds switch fuel x.0 x.1))) p h)

-- A run to the end of the bytes is the result of the loop.
pub unmarshal-Runs :
    {A : Type 0} (switch : Switch A) (a e : A) (bytes : List ℕ)
    → IsShortening switch
    → Runs switch a bytes e []
    → unmarshal switch a bytes ≡ ok e
unfolding unmarshal
unmarshal-Runs switch a e bytes short r =
    rounds-Runs (length bytes) r (rounds-Ends switch short (length bytes) a bytes (omega arith))
