-- ===== src/Split.antt =====
-- src/services/ShardSplitService.ts: moving tenants from one shard to another while writes go on.
pub mod Types
pub mod Store
pub mod Texts
pub mod Commands
pub mod Routes
pub mod Rollback
pub mod Cutover
pub mod Exclusive
pub mod Planning
pub mod Histories
pub mod Shards
pub mod Backfill
pub mod Copying
pub mod Termination
pub mod Replay
pub mod Replaying
pub mod Tailing
pub mod Restart
pub mod Tests
