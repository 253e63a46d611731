-- ===== src/Approval.antt =====
-- Human approvals: requests that wait, stored approvals, and what the executor asks of a store.
pub mod Record
pub mod Port
pub mod Manager
pub mod Store
pub mod Compat
pub mod Repository
pub mod Verifier
