-- ===== src/Connection.antt =====
-- src/services/ConnectionManager.ts: sessions bound to shards, and a pool of sockets for each shard.
pub mod Sessions
pub mod Pools
pub mod Counts
pub mod Waiting
pub mod Capacity
pub mod Tests
