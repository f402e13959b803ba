-- ===== src/Mvcc.antt =====
-- The transaction layer, src/transaction/mvcc.
pub mod Codec
pub mod Records
pub mod Txn
pub mod Scanner
mod Examples
