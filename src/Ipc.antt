-- ===== src/Ipc.antt =====
-- The request protocol of crates/reaper-ipc.
pub mod Protocol
pub mod Bridge
pub mod Heartbeat
pub mod Request
pub mod Failure
pub mod Result
pub mod Reply
pub mod Config
pub mod Client
pub mod Tests
