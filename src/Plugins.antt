-- ===== src/Plugins.antt =====
-- plugins/: the drivers' own logic; the devices and the operating system are parameters.
mod Tests
pub mod Prbs
pub mod Msc
pub mod Fpga
pub mod Escapes
