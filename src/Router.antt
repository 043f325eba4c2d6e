-- ===== src/Router.antt =====
-- src/services/RouterService.ts: where a query goes. Router.Hash is the hash of a key, Router.Fleet the
-- health of the shards, Router.Service the policies that the router keeps and the choice of a shard.
pub mod Hash
pub mod Fleet
pub mod Service
pub mod Caching
pub mod Cutover
pub mod Tests
