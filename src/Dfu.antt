-- ===== src/Dfu.antt =====
-- nrf52840_ot_rcp_updater/app/dfu.py: the selection of one Secure DFU device.
pub mod Target
pub mod Paths
pub mod Machine
pub mod Flasher
pub mod Selection
pub mod Scans
pub mod Found
pub mod Matched
pub mod Bound
pub mod Probed
pub mod Flashing
mod Tests
