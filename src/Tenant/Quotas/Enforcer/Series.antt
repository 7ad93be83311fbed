-- ===== src/Tenant/Quotas/Enforcer/Series.antt =====
-- The set of series keys of a window, and the number of new ones that the limit is tested with.
use metrics_governor.Prelude.{
  ℕ, zero, suc, ◌+◌, ◌≤◌, ◌≡◌, refl, true, false, ◌||◌, List, [], ◌∷◌, ◌++◌, String, length,
  length-append, arith,
}
use metrics_governor.Prelude.Eq.{string_eq}
use metrics_governor.Tenant.Quotas.Enforcer.{contains, count_new_series, add_series}

contains-append :
    (k : String) (xs ys : List String) → contains k (xs ++ ys) ≡ (contains k xs || contains k ys)
unfolding contains
contains-append k [] ys = refl
contains-append k (x ∷ xs) ys = ground (arith, contains-append k xs ys)

count_new_series-append :
    (xs ys ks : List String) → count_new_series (xs ++ ys) ks ≤ count_new_series xs ks
unfolding count_new_series
count_new_series-append xs ys [] = omega arith
count_new_series-append xs ys (k ∷ ks) =
    ground (arith, contains-append k xs ys, count_new_series-append xs ys ks)

-- The number that is tested is never less than the number of series that are added.
pub length-add_series :
    (xs ks : List String) → length (add_series xs ks) ≤ length xs + count_new_series xs ks
unfolding add_series count_new_series
length-add_series xs [] = omega arith
length-add_series xs (k ∷ ks) = ground (
  arith,
  length-add_series xs ks,
  length-add_series (xs ++ k ∷ []) ks,
  length-append xs (k ∷ []),
  count_new_series-append xs (k ∷ []) ks,
)

unfoldable pub replicate : ℕ → String → List String
replicate zero k = []
replicate (suc n) k = k ∷ replicate n k

count_new_series-replicate :
    (n : ℕ) (k : String) (xs : List String)
    → contains k xs ≡ false
    → count_new_series xs (replicate n k) ≡ n
unfolding count_new_series replicate
count_new_series-replicate zero k xs h = refl
count_new_series-replicate (suc n) k xs h = ground (arith, count_new_series-replicate n k xs h)

add_series-replicate :
    (n : ℕ) (k : String) (xs : List String)
    → contains k xs ≡ true
    → add_series xs (replicate n k) ≡ xs
unfolding add_series replicate
add_series-replicate zero k xs h = refl
add_series-replicate (suc n) k xs h = ground (arith, add_series-replicate n k xs h)

contains-last : (k : String) (xs : List String) → contains k (xs ++ k ∷ []) ≡ true
unfolding contains
contains-last k [] = ground (arith, string_eq.beq_iff k k)
contains-last k (x ∷ xs) = ground (arith, contains-last k xs)

-- Data points of one series that is new in the window are each counted as a new series where the
-- limit is tested, and are added as one.
pub add_series_repeated :
    (n : ℕ) (k : String) (xs : List String)
    → contains k xs ≡ false
    → count_new_series xs (replicate (suc n) k) ≡ suc n
      × length (add_series xs (replicate (suc n) k)) ≡ suc (length xs)
unfolding add_series replicate
add_series_repeated n k xs h = ground (
  arith,
  count_new_series-replicate (suc n) k xs h,
  contains-last k xs,
  add_series-replicate n k (xs ++ k ∷ []),
  length-append xs (k ∷ []),
)
