-- ===== src/Fleet.antt =====
-- The devices, their credentials and the backups of their configurations: internal/devices/repo.go,
-- internal/crypto/sealer.go, internal/credentials/repo.go and internal/backup/service.go.
pub mod Tables
pub mod Devices
pub mod Sealer
pub mod Credentials
pub mod Envelopes
pub mod Secrets
pub mod Routes
pub mod Backup
pub mod History
pub mod Outcomes
pub mod Runs
pub mod Versions
mod Tests
