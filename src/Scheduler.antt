-- ===== src/Scheduler.antt =====
-- The placement of regions on stores, src/scheduler.
pub mod Region
pub mod Store
pub mod Cluster
pub mod Filter
pub mod Sorting
pub mod Operator
pub mod BalanceRegion
pub mod BalanceLeader
pub mod Scale
pub mod Controller
mod Examples
