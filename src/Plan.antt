-- ===== src/Plan.antt =====
-- plan.py: text job plans and their tar containers.
mod Tests
pub mod Value
pub mod Tokens
pub mod Args
pub mod Text
pub mod Tar
pub mod Devices
