-- ===== src/Queue.antt =====
-- Outbound scheduling: src/queue/.
pub mod Retry
pub mod Destination
pub mod Manager
