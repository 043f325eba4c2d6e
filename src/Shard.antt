-- ===== src/Shard.antt =====
-- src/services/TableShard.ts: a shard. Shard.Statements is its list of recent statements, Shard.Service its
-- mutations, transactions and events.
pub mod Statements
pub mod Service
pub mod Execution
pub mod Commits
pub mod Queued
pub mod Changes
pub mod Invalidation
pub mod Tests
