-- ===== src/Tenant/Quotas.antt =====
-- internal/tenant/quotas.go: limits per time window, first global, then per tenant. Times and
-- durations are natural numbers of nanoseconds; limits and priorities of 0 or less are 0. Counters
-- stay below 2^63. A set of keys is a list without doubles. YAML, `time.ParseDuration` and `%g` are
-- parameters; prometheus metrics are left out.
pub mod Config
pub mod Series
pub mod Enforcer
