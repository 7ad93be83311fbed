-- ===== src/Exporter/SpillRateLimiter/Tests.antt =====
-- Runs of the token bucket.
use metrics_governor.Prelude.{ℕ, ◌+◌, ◌-◌, ◌*◌, ◌/◌, ◌^◌, ◌≡◌, ◌≤◌, refl, List, [], ◌∷◌, arith}
use metrics_governor.Exporter.SpillRateLimiter.{new_spillover_rate_limiter, allow, refill_locked}
use metrics_governor.Exporter.SpillRateLimiter.Laws.{run, IsRounded, run_limiter-IsWithin}

abbrev product : ℕ → ℕ → ℕ
product elapsed rate = elapsed * rate / 10 ^ 9

product-IsRounded : IsRounded product
product-IsRounded elapsed rate = omega arith

abbrev times : List ℕ
times = 1 ∷ 2 ∷ 3 ∷ 600000000 ∷ []

run_limiter_lets : (run product (new_spillover_rate_limiter 2 0) times).1 ≡ 3
unfolding run allow refill_locked new_spillover_rate_limiter
run_limiter_lets = refl

run_limiter-IsWithin_example :
    (run product (new_spillover_rate_limiter 2 0) times).1 * (10 ^ 9 * 2 ^ 50)
    ≤ 2 * (10 ^ 9 * 2 ^ 50) + (10 ^ 9 - 0) * 2 * (2 ^ 50 + 1)
run_limiter-IsWithin_example =
    run_limiter-IsWithin product 2 0 (10 ^ 9) times product-IsRounded (ground arith)
