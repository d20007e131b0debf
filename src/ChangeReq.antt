-- ===== src/ChangeReq.antt =====
-- internal/changereq/changereq.go: the approval workflow that gates every change to a device.
pub mod Machine
pub mod Rows
pub mod Service
pub mod Evolve
pub mod Lifecycle
pub mod Races
pub mod Log
pub mod Calls
pub mod Torn
pub mod Isolation
pub mod RoundTrip
mod Tests
