-- ===== src/Examples.antt =====
-- Tests, and the theorems at concrete inputs.
pub mod Cluster
pub mod Graph
pub mod Clocks
pub mod Queues
pub mod Requests
pub mod Timers
pub mod Stores
pub mod TestCases
pub mod Partitions
pub mod RaftReplica
pub mod RaftCases
pub mod Rounds
pub mod Votes
pub mod Proposals
