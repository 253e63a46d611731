-- ===== src/Privacy.antt =====
-- What is taken out of texts before they leave: agent/privacy/ContentFilter.ts, and `safeText` of
-- agent/audit/AuditLog.ts and agent/coding/RepairSessionStore.ts.
pub mod Replace
pub mod ContentFilter
pub mod SafeText
