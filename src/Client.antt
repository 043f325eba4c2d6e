-- ===== src/Client.antt =====
-- The Node client: Client.Pool is sdk/node/src/connection-pool.ts and Client.Retry is
-- sdk/node/src/retry-logic.ts.
pub mod Pool
pub mod Exclusive
pub mod Leases
pub mod Health
pub mod Retry
pub mod Attempts
pub mod Tests
