-- ===== src/Spool.antt =====
-- src/spool: the messages on disk.
pub mod Files
pub mod Disk
