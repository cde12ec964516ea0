-- ===== src/RaftTests.antt =====
-- The program raft/tests: conditions, actions and test cases for the replicas of the Raft example.
pub mod Messages
pub mod Conditions
pub mod Actions
pub mod Cases
