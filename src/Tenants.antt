-- ===== src/Tenants.antt =====
-- internal/tenants/tenants.go: tenants and their quotas of devices.
pub mod Service
pub mod Quota
mod Tests
