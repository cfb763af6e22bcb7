-- ===== src/Server.antt =====
-- server.py: the job broker. Its state is the state directory, one dict for each kind of file.
mod Tests
pub mod Digest
pub mod Store
pub mod Meta
pub mod Queue
pub mod Submit
pub mod Pickup
pub mod Upload
pub mod Cancel
pub mod Sweep
pub mod Lifecycle
pub mod Workers
pub mod Jobs
pub mod Steps
pub mod Invariant
