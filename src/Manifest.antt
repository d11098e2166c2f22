-- ===== src/Manifest.antt =====
-- nrf52840_ot_rcp_updater/app/manifest.py: the check of firmware images, and the releases of a
-- manifest in order.
pub mod Elf
pub mod Segments
pub mod Reads
pub mod Accepted
pub mod Releases
pub mod Order
pub mod Newest
pub mod Policy
pub mod Sorted
pub mod Latest
pub mod Sample
mod Tests
