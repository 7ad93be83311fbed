-- ===== src/Exporter/SpillRateLimiter/Laws.antt =====
-- How many pushes a run lets through.
use metrics_governor.Prelude.{
  ℕ, ◌+◌, ◌-◌, ◌*◌, ◌^◌, ◌≤◌, ◌≡◌, ap, List, [], ◌∷◌, arith, if◌then◌else◌,
}
use metrics_governor.Exporter.SpillRateLimiter.{
  SpilloverRateLimiter, new_spillover_rate_limiter, refill_locked, allow,
}

-- The calls at the instants of the list, and how many are let through.
unfoldable pub run : (ℕ → ℕ → ℕ) → SpilloverRateLimiter → List ℕ → SpilloverRateLimiter × ℕ
run product r [] = (r, 0)
run product r (now ∷ times) =
    let a = allow product r now in
    let rest = run product a.0 times in (rest.0, (if a.1 then 1 else 0) + rest.1)

-- The instants are in order, none before the given one nor after the last.
abbrev pub InOrder : ℕ → ℕ → List ℕ → Type 0
InOrder from last [] = from ≤ last
InOrder from last (now ∷ times) = (from ≤ now) × InOrder now last times

-- The four roundings of float64 in the product, of the seconds and of the rate as well, add at most 2^-50 of
-- it, since each adds at most 2^-53.
abbrev pub IsRounded : (ℕ → ℕ → ℕ) → Type 0
IsRounded product =
    (elapsed rate : ℕ) → product elapsed rate * (10 ^ 9 * 2 ^ 50) ≤ elapsed * rate * (2 ^ 50 + 1)

order_le : (from last : ℕ) (times : List ℕ) → InOrder from last times → from ≤ last
order_le from last [] o = o
order_le from last (now ∷ times) o = omega (arith, o.0, order_le now last times o.1)

distribute : (a b c d : ℕ) → a ≤ b → b ≤ c → (c - a) * d ≡ (b - a) * d + (c - b) * d
distribute a b c d h k =
    let e : c - a ≡ (b - a) + (c - b) = omega arith in omega (arith, ap (λ t. t * d) e)

-- A call costs what it lets through: the tokens, and what the rate still gives until the last instant.
abbrev worth : SpilloverRateLimiter → ℕ → ℕ
worth r last = r.tokens * (10 ^ 9 * 2 ^ 50) + (last - r.last_refill) * r.max_per_sec * (2 ^ 50 + 1)

refill_worth :
    (product : ℕ → ℕ → ℕ) (r : SpilloverRateLimiter) (last now : ℕ)
    → IsRounded product
    → r.last_refill ≤ now
    → now ≤ last
    → ((refill_locked product r now).last_refill ≤ now)
      × (worth (refill_locked product r now) last ≤ worth r last)
unfolding refill_locked
refill_worth product r last now d h k = ground (
  arith,
  distribute r.last_refill now last r.max_per_sec h k,
  d (now - r.last_refill) r.max_per_sec,
)

allow-worth :
    (product : ℕ → ℕ → ℕ) (r : SpilloverRateLimiter) (last now : ℕ)
    → IsRounded product
    → r.last_refill ≤ now
    → now ≤ last
    → ((allow product r now).0.last_refill ≤ now)
      × ((if (allow product r now).1 then 1 else 0) * (10 ^ 9 * 2 ^ 50)
            + worth (allow product r now).0 last
          ≤ worth r last)
unfolding allow
allow-worth product r last now d h k = ground (arith, refill_worth product r last now d h k)

run_bound :
    (product : ℕ → ℕ → ℕ) (r : SpilloverRateLimiter) (last : ℕ) (times : List ℕ) (from : ℕ)
    → IsRounded product
    → r.last_refill ≤ from
    → InOrder from last times
    → (run product r times).1 * (10 ^ 9 * 2 ^ 50)
      ≤ r.tokens * (10 ^ 9 * 2 ^ 50) + (last - r.last_refill) * r.max_per_sec * (2 ^ 50 + 1)
unfolding run
run_bound product r last [] from d h o = omega arith
run_bound product r last (now ∷ times) from d h o =
    let a = allow-worth product r last now d (omega (arith, o.0)) (order_le now last times o.1) in
    omega (arith, a.1, run_bound product (allow product r now).0 last times now d a.0 o.1)

-- Over calls at instants in order, a new limiter lets through at most its burst and what its rate gives for
-- the whole time, up to the rounding of float64: n · 10^9 ≤ maximum · 10^9 + nanoseconds · maximum · (1 + 2^-50).
-- The float64 product of the time and the rate is taken to exceed the exact one by at most 2^-50 of it.
pub run_limiter-IsWithin :
    (product : ℕ → ℕ → ℕ) (max_per_sec from last : ℕ) (times : List ℕ)
    → IsRounded product
    → InOrder from last times
    → (run product (new_spillover_rate_limiter max_per_sec from) times).1 * (10 ^ 9 * 2 ^ 50)
      ≤ max_per_sec * (10 ^ 9 * 2 ^ 50) + (last - from) * max_per_sec * (2 ^ 50 + 1)
unfolding new_spillover_rate_limiter
run_limiter-IsWithin product max_per_sec from last times d o =
    run_bound product (new_spillover_rate_limiter max_per_sec from) last times from d (omega arith)
      o
