-- ===== src/Raft.antt =====
-- The consensus component, src/raft.
pub mod Types
pub mod Log
pub mod Progress
pub mod State
pub mod Replicate
pub mod Elect
pub mod Follow
pub mod Step
pub mod RawNode
mod Examples
