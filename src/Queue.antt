-- ===== src/Queue.antt =====
-- src/services/QueueEventSystem.ts: the consumer of a batch of queue messages, which invalidates cached
-- queries (Queue.Consumer), and the event system with its own dead letter queue (Queue.System).
pub mod Consumer
pub mod Emptying
pub mod Redelivery
pub mod System
pub mod Retries
pub mod Tests
