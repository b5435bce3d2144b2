-- ===== src/Cluster.antt =====
-- internal/cluster: what a node knows of the other nodes, a module for each source file.
pub mod Connections
mod Runs
pub mod RemoteSubs
pub mod Conflict
pub mod Gossip
pub mod Takeover
pub mod Migration
pub mod Executor
