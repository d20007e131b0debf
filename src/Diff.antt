-- ===== src/Diff.antt =====
-- internal/diff/diff.go: the line diff of two versions of a configuration.
pub mod Engine
pub mod Table
pub mod Minimal
mod Tests
