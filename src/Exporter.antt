-- ===== src/Exporter.antt =====
-- internal/exporter.
pub mod CircuitBreaker
pub mod Scaler
pub mod Workers
pub mod BatchTuner
pub mod SpillRateLimiter
