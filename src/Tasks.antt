-- ===== src/Tasks.antt =====
-- The task ledger of entigram/sqlite_ledger/manager.py.
pub mod Types
pub mod Rows
pub mod Gate
pub mod Approval
pub mod Queue
pub mod Lease
pub mod Handoff
pub mod Review
pub mod Op
pub mod Machine
pub mod Ownership
pub mod Grants
pub mod Recovery
