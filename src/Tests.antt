-- ===== src/Tests.antt =====
-- Concrete ledgers, requests and sessions on which the theorems are applied.
pub mod Ledgers
pub mod Leases
pub mod Approvals
pub mod Actions
pub mod Contracts
pub mod Plans
pub mod Records
pub mod Registries
pub mod Trusts
pub mod Sessions
