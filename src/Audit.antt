-- ===== src/Audit.antt =====
-- The audit log: internal/audit/audit.go.
pub mod Service
pub mod Filters
pub mod Paging
mod Tests
