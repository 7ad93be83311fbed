-- ===== src/Buffer.antt =====
-- internal/buffer.
pub mod MemoryQueue
pub mod Split
