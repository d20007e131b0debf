-- ===== src/Compliance.antt =====
-- internal/compliance/compliance.go: rules over configurations, and their findings.
pub mod Rules
pub mod Service
pub mod Evaluate
pub mod Devices
mod Tests
