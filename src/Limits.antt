-- ===== src/Limits.antt =====
-- internal/limits.
pub mod RuleCache
pub mod Tracker
pub mod Groups
