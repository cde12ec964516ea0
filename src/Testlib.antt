-- ===== src/Testlib.antt =====
-- The components of netrix/testlib.
pub mod Partition
pub mod Vars
pub mod Context
pub mod Conditions
pub mod Wrappers
pub mod Actions
pub mod Filters
pub mod Machine
pub mod Driver
