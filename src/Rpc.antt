-- ===== src/Rpc.antt =====
-- The calls of the pollers: internal/server/grpc.go over internal/poller/wire.go.
pub mod Cache
pub mod Service
pub mod Replay
pub mod Sessions
mod Tests
