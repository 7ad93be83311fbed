-- ===== src/Exporter/SpillRateLimiter.antt =====
-- The token bucket of internal/exporter/spill_rate_limiter.go. The clock is an argument, in nanoseconds, and the float64
-- product of `refillLocked` is a parameter. The calls run under the lock, one after the other.
pub mod Laws
mod Tests
use metrics_governor.Prelude.{ℕ, ◌+◌, ◌-◌, Bool, true, false, ltb, leb, ◌==◌, if◌then◌else◌}

pub record SpilloverRateLimiter : Type 0 where
  pub max_per_sec : ℕ
  pub tokens : ℕ
  pub last_refill : ℕ

-- A maximum that is negative is passed as 0.
unfoldable pub new_spillover_rate_limiter : ℕ → ℕ → SpilloverRateLimiter
new_spillover_rate_limiter max_per_sec now = record {
  max_per_sec = max_per_sec;
  tokens = max_per_sec;
  last_refill = now;
}

-- `product elapsed max` is `int(elapsed.Seconds() * float64(max))`.
unfoldable pub refill_locked : (ℕ → ℕ → ℕ) → SpilloverRateLimiter → ℕ → SpilloverRateLimiter
refill_locked product r now =
    if leb now r.last_refill
    then r
    else (let new_tokens = product (now - r.last_refill) r.max_per_sec in
        if new_tokens == 0 then r else record r {
          tokens =
              if ltb r.max_per_sec (r.tokens + new_tokens)
              then r.max_per_sec
              else r.tokens + new_tokens;
          last_refill = now;
        })

unfoldable pub allow : (ℕ → ℕ → ℕ) → SpilloverRateLimiter → ℕ → SpilloverRateLimiter × Bool
allow product r now =
    let r' = refill_locked product r now in
    if r'.tokens == 0 then (r', false) else (record r' { tokens = r'.tokens - 1 }, true)
