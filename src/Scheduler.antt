-- ===== src/Scheduler.antt =====
-- internal/scheduler/scheduler.go: the lease that elects one of several replicas, and the ticks of the
-- runner that holds it.
pub mod Lease
pub mod Runner
mod Tests
