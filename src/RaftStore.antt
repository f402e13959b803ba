-- ===== src/RaftStore.antt =====
-- The store of regions of src/raftstore: ranges, the map of regions, splits and health checks.
pub mod Range
pub mod Recovery
pub mod StoreMeta
pub mod Balancer
pub mod Admin
pub mod Health
pub mod Meta
pub mod PeerStorage
pub mod RegionTask
pub mod SplitChecker
mod Examples
