-- ===== src/Queue.antt =====
-- internal/queue.
pub mod BatchQueue
pub mod Spillover
pub mod FastQueue
pub mod SendQueue
