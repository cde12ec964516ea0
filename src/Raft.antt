-- ===== src/Raft.antt =====
-- The program raft: a replica that runs the Raft library under the tool, and the test cases for it.
pub mod State
pub mod KvApp
pub mod Library
pub mod Node
pub mod Snapshots
pub mod Apply
pub mod Loop
