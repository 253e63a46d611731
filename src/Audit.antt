-- ===== src/Audit.antt =====
-- The audit trails: storage/repositories/AuditRepository.ts and agent/audit/AuditLog.ts.
pub mod Chain
pub mod Log
