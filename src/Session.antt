-- ===== src/Session.antt =====
-- internal/session: SSH sessions, their transfers, and command output that is spooled to disk.
pub mod Banner
pub mod Job
pub mod Pool
pub mod Spool
