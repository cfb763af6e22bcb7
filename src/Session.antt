-- ===== src/Session.antt =====
-- session.py: the run of one job.
mod Tests
pub mod Stream
pub mod Locks
pub mod Run
pub mod Devices
