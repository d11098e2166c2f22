-- ===== src/Preflight.antt =====
-- nrf52840_ot_rcp_updater/app/preflight.py: no update while OTBR has management work.
pub mod Actions
pub mod Window
pub mod Idle
pub mod Listing
pub mod Quiet
mod Tests
