-- ===== src/Server.antt =====
-- src/server/transaction_api.rs: the handlers of the two-phase commit.
pub mod Types
pub mod Latched
pub mod Prewrite
pub mod Commit
pub mod Rollback
pub mod CheckTxn
pub mod Resolve
pub mod Read
mod Examples
