-- ===== src/Poller.antt =====
-- poller.py: the bench host's loop.
mod Tests
pub mod Spool
pub mod Dispatch
pub mod Transfer
pub mod Cancels
pub mod Supervisor
