-- ===== src/Sharding.antt =====
-- internal/sharding.
pub mod Text
pub mod HashRing
pub mod ShardKey
pub mod Splitter
