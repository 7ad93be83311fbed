-- ===== src/Limits/Tracker.antt =====
-- What the limits use of a cardinality tracker, and the exact tracker of internal/cardinality/exact.go. Calls run under
-- the lock, one after the other.
use metrics_governor.Prelude.{
  ℕ, ◌≡◌, Bool, true, false, ◌||◌, List, [], ◌∷◌, String, length, arith, if◌then◌else◌,
}
use metrics_governor.Prelude.Eq.{string_eq}

-- The interface `Tracker` of internal/cardinality. `add` returns whether the key was new.
pub record Tracker (T : Type 0) : Type 0 where
  pub new_tracker : T
  pub test_only : T → String → Bool
  pub add : T → String → T × Bool
  pub count : T → ℕ

-- The tracker stays a set of keys: a key that is found is not new when it is added, and is found from then
-- on. The hybrid tracker is no such set: when it switches to HLL, it no longer finds the keys it has found.
pub record IsKeySet {T : Type 0} (tr : Tracker T) : Type 0 where
  pub add_known : (t : T) (k : String) → tr.test_only t k ≡ true → (tr.add t k).1 ≡ false
  pub add_keeps :
      (t : T) (k j : String) → tr.test_only t k ≡ true → tr.test_only (tr.add t j).0 k ≡ true

unfoldable pub has : List String → String → Bool
has [] k = false
has (j ∷ items) k = string_eq.beq j k || has items k

-- `Add` and `TestOnly` on the set of the keys, as a list.
unfoldable pub add_exact : List String → String → List String × Bool
add_exact items k = if has items k then (items, false) else (k ∷ items, true)

unfoldable pub count_exact : List String → ℕ
count_exact items = length items

add_exact_known : (t : List String) (k : String) → has t k ≡ true → (add_exact t k).1 ≡ false
unfolding add_exact
add_exact_known t k h = ground (arith, h)

add_exact_keeps : (t : List String) (k j : String) → has t k ≡ true → has (add_exact t j).0 k ≡ true
unfolding add_exact has
add_exact_keeps t k j h = ground (arith, h)

abbrev pub exact_tracker : Tracker (List String)
exact_tracker = record { new_tracker = []; test_only = has; add = add_exact; count = count_exact }

pub exact_tracker-IsKeySet : IsKeySet exact_tracker
exact_tracker-IsKeySet = record { add_known = add_exact_known; add_keeps = add_exact_keeps }
