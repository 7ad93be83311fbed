-- ===== src/Prelude/Map.antt =====
-- A Go map as an association list: `m[k]`, `m[k] = v` and `delete(m, k)`.
use Prim.Native.Nat.{ℕ, suc, ◌+◌}
use mathlib.Core.Path.{◌≡◌, refl}
use mathlib.Core.Option.{Option, none, some}
use mathlib.Core.List.{List, [], ◌∷◌}
use native.Mathlib.Omega.{arith}
use package.metrics_governor.Prelude.Tests.{if◌then◌else◌}
use package.metrics_governor.Prelude.Lists.{length}
use package.metrics_governor.Prelude.Eq.{BEq}

abbrev pub Map {ℓ κ} : Type ℓ → Type κ → Type (ℓ ⊔ κ)
Map K V = List (K × V)

-- The measure of what a lookup finds.
abbrev pub measure {ℓ} : {V : Type ℓ} → (V → ℕ) → Option V → ℕ
measure f none = 0
measure f (some v) = f v

module _ {ℓ κ} {K : Type ℓ} {V : Type κ} ⦃e : BEq K⦄ where
  abbrev pub lookup : K → Map K V → Option V
  lookup k [] = none
  lookup k ((j, v) ∷ m) = if e.beq j k then some v else lookup k m

  abbrev pub insert : K → V → Map K V → Map K V
  insert k v [] = (k, v) ∷ []
  insert k v ((j, w) ∷ m) = if e.beq j k then (k, v) ∷ m else (j, w) ∷ insert k v m

  -- Every entry of the key goes.
  abbrev pub delete : K → Map K V → Map K V
  delete k [] = []
  delete k ((j, w) ∷ m) = if e.beq j k then delete k m else (j, w) ∷ delete k m

  pub lookup-insert :
      (k j : K) (v : V) (m : Map K V)
      → lookup j (insert k v m) ≡ (if e.beq k j then some v else lookup j m)
  lookup-insert k j v [] = refl
  lookup-insert k j v ((i, w) ∷ m) =
      ground (arith, e.beq_iff k j, e.beq_iff i k, e.beq_iff i j, lookup-insert k j v m)

  pub lookup-delete :
      (k j : K) (m : Map K V) → lookup j (delete k m) ≡ (if e.beq k j then none else lookup j m)
  lookup-delete k j [] = ground arith
  lookup-delete k j ((i, w) ∷ m) =
      ground (arith, e.beq_iff k j, e.beq_iff i k, e.beq_iff i j, lookup-delete k j m)

  pub length-insert_new :
      (k : K) (v : V) (m : Map K V) → lookup k m ≡ none → length (insert k v m) ≡ suc (length m)
  length-insert_new k v [] h = refl
  length-insert_new k v ((j, w) ∷ m) h = ground (arith, length-insert_new k v m)

  -- No key stands twice, as in a Go map. Then the length is the number of keys.
  abbrev pub Distinct : Map K V → Type κ
  Distinct [] = Unit
  Distinct ((k, v) ∷ m) = (lookup k m ≡ none) × Distinct m

  pub insert-Distinct : (k : K) (v : V) (m : Map K V) → Distinct m → Distinct (insert k v m)
  insert-Distinct k v [] d = (refl, tt)
  insert-Distinct k v ((j, w) ∷ m) d =
      ground (arith, e.beq_iff j k, e.beq_iff k j, insert-Distinct k v m d.1, lookup-insert k j v m)

  pub delete_absent : (k : K) (m : Map K V) → lookup k m ≡ none → delete k m ≡ m
  delete_absent k [] h = refl
  delete_absent k ((j, w) ∷ m) h = ground (arith, delete_absent k m)

  pub delete-Distinct : (k : K) (m : Map K V) → Distinct m → Distinct (delete k m)
  delete-Distinct k [] d = tt
  delete-Distinct k ((j, w) ∷ m) d =
      ground (arith, e.beq_iff k j, e.beq_iff j k, delete-Distinct k m d.1, lookup-delete k j m)

  pub length-delete :
      (k : K) (m : Map K V) (v : V)
      → Distinct m
      → lookup k m ≡ some v
      → suc (length (delete k m)) ≡ length m
  length-delete k [] v d h = cc
  length-delete k ((j, w) ∷ m) v d h =
      ground (arith, e.beq_iff j k, length-delete k m v, delete_absent k m)

  -- The sum of a measure over the entries of a key.
  abbrev pub entry_sum : (V → ℕ) → K → Map K V → ℕ
  entry_sum f k [] = 0
  entry_sum f k ((j, v) ∷ m) = (if e.beq j k then f v else 0) + entry_sum f k m

  pub entry_sum-insert :
      (f : V → ℕ) (k j : K) (v : V) (m : Map K V)
      → entry_sum f j (insert k v m) + (if e.beq k j then measure f (lookup k m) else 0)
        ≡ entry_sum f j m + (if e.beq k j then f v else 0)
  entry_sum-insert f k j v [] = ground (arith, e.beq_iff k j)
  entry_sum-insert f k j v ((i, w) ∷ m) =
      ground (arith, e.beq_iff k j, e.beq_iff i k, e.beq_iff i j, entry_sum-insert f k j v m)

  entry_sum_absent : (f : V → ℕ) (k : K) (m : Map K V) → lookup k m ≡ none → entry_sum f k m ≡ 0
  entry_sum_absent f k [] h = refl
  entry_sum_absent f k ((j, v) ∷ m) h = ground (arith, entry_sum_absent f k m)

  pub entry_sum-lookup :
      (f : V → ℕ) (k : K) (m : Map K V) → Distinct m → entry_sum f k m ≡ measure f (lookup k m)
  entry_sum-lookup f k [] d = refl
  entry_sum-lookup f k ((j, v) ∷ m) d =
      ground (arith, e.beq_iff j k, entry_sum-lookup f k m d.1, entry_sum_absent f j m)
