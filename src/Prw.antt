-- ===== src/Prw.antt =====
-- internal/prw.
pub mod RetryQueue
pub mod Proto
pub mod Series
pub mod Limits
pub mod Splitter
