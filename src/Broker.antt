-- ===== src/Broker.antt =====
-- internal/broker: the parts of one broker node, a module for each source file.
pub mod Topic
mod Runs
pub mod PacketId
pub mod Inflight
pub mod Dedup
pub mod Subscription
