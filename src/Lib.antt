-- ===== src/Lib.antt =====
-- A model of services of WorkerSQL, a gateway that spreads the tenants of SQL databases over shards.
--
-- The parts, and the files of the repository that they model:
--   * Routing: src/services/RoutingVersionManager.ts. Routing policies, which send tenants to shards, are
--     published under version numbers in a key-value namespace, with a pointer to the current one.
--     `updateCurrentPolicy` is `update_current_policy`, `rollbackToVersion` is `rollback_to_version`.
--   * Split: src/services/ShardSplitService.ts. A plan moves tenants from a shard to another: dual writes,
--     a backfill of the rows, a replay of the events written meanwhile, and a cutover, which publishes a
--     policy through Routing; a rollback moves Routing's pointer back. Split.Store holds the state,
--     Split.Commands the commands, Split.Backfill the background task round by round, Split.Replay the
--     replay; Split.Histories runs sequences of the commands. The endpoints of the shards are the record `Shards` of Split.Shards.
--   * Breaker: src/services/CircuitBreakerService.ts. `execute` is a check before the call and a report
--     after it, so calls can overlap.
--   * Connection: src/services/ConnectionManager.ts. Connection.Sessions holds the sessions and their
--     counters, Connection.Pools the pool of sockets for one shard.
--   * Rbac: src/services/RBACService.ts. Rbac.Roles resolves roles and permissions, Rbac.Decisions
--     evaluates policies and conditions, Rbac.Service holds the schemas of the tenants.
--   * Cache: src/services/CacheService.ts. Entries that are fresh, stale but usable or expired, under keys by
--     tenant, table and query; a pattern deletes the entries under a prefix.
--   * Queue: src/services/QueueEventSystem.ts. Queue.Consumer is `queueConsumer`, which invalidates entries of Cache
--     for a batch of messages; Queue.System is the class, with its retries and dead letter queue.
--   * Router: src/services/RouterService.ts. `route_query` is `routeQuery`. The router keeps policies of Routing;
--     Router.Fleet holds the health of the shards, Router.Hash the hash of a key. src/gateway.ts asks the
--     router for a tenant's primary shard and then Split for the shards to read and write: Router.Cutover puts
--     these two together.
--   * Shard: src/services/TableShard.ts. A shard, over a database that is a parameter: mutations, batches,
--     transactions, the log of changes that Split replays, and the invalidation events that Queue consumes. Whether
--     the storage has `transactionSync` is a field of the parameter `Engine`, and both ways are modelled.
--   * Migration: src/services/ShardMigrationService.ts. Another way to move tenants, to several shards at once:
--     Migration marks the tenants, and publishes their new shards through Routing.
--   * Client: sdk/node/src/connection-pool.ts and sdk/node/src/retry-logic.ts, of the Node client. What `Math.random`
--     draws for a delay is an argument.
--   * Base, Dict, Kv, Text and Errors are shared: tests and lists over the native numbers, JavaScript's `Map` as
--     an association list in insertion order, the platform's key-value namespace as operations with laws,
--     texts as they are taken apart, and the errors of src/types/index.ts by their codes.
--
-- The state of a service is a record, an operation takes it and returns it, and an operation that throws
-- returns the error with the state as it is then. Times are numbers that the caller gives. Numbers are
-- natural numbers; where the code subtracts, it stops at 0 as the code does, or the comparison is written
-- as a sum.
--
-- Fuel: the recursion of `resolveUserRoles` has one more than the number of roles, since each level visits a
-- role that was not visited before. The background backfill has a number of rounds; a round copies a page
-- and raises the table's cursor, or goes on to the next table, so two rounds more than the highest row
-- number are enough for each table.
--
-- `RetryStrategy.execute` makes the attempts that its options allow, and the digits of a number are at most as
-- many as its successor.
--
-- Not modelled: the gateway, the backfill of a migration, a shard's export and import of rows and its
-- bookmarks, authentication, audit, monitoring, SQL rewriting and encryption, which call the platform or work
-- on text; the transport of the clients; logging throughout. The platform's digest, its regular expressions and its database, and the parser
-- of table policies, are parameters.
pub mod Base
pub mod Dict
pub mod Kv
pub mod Text
pub mod Cache
pub mod Queue
pub mod Router
pub mod Client
pub mod Shard
pub mod Migration
pub mod Errors
pub mod Routing
pub mod Split
pub mod Breaker
pub mod Connection
pub mod Rbac
