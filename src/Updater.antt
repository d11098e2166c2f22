-- ===== src/Updater.antt =====
-- nrf52840_ot_rcp_updater/app/updater.py: the transaction that replaces the firmware.
pub mod Checks
pub mod Steps
pub mod Transaction
pub mod StepsKeep
pub mod Replacing
pub mod Locking
pub mod Safety
pub mod Matching
pub mod Verified
pub mod Allowed
pub mod Ending
pub mod Returning
pub mod Termination
mod Tests
