-- ===== src/Changes.antt =====
-- The feed of changes between versions of a configuration: internal/changes/changes.go.
pub mod Service
pub mod Previous
pub mod Steps
pub mod Feed
mod Tests
