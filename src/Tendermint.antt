-- ===== src/Tendermint.antt =====
-- The program tendermint/tests: replica sets, partitions, and the messages, conditions and filters of
-- the test cases.
pub mod ReplicaSets
pub mod Partition
pub mod Messages
pub mod Change
pub mod Conditions
pub mod Rounds
pub mod Actions
