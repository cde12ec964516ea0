-- ===== src/Types.antt =====
-- The package netrix/types: what replicas report, and the stores that keep it.
pub mod Event
pub mod Clock
pub mod Replicas
pub mod Dag
pub mod Messages
pub mod EventQueue
pub mod MessageQueue
pub mod Timeouts
pub mod Reports
pub mod ReplicaLogs
