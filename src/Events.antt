-- ===== src/Events.antt =====
-- The usage event pipeline (internal/events).
pub mod StateFile
pub mod SeqAlloc
pub mod Lanes
pub mod Wal
pub mod Reporter
pub mod DeadLetter
pub mod Retention
