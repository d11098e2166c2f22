-- ===== src/Models.antt =====
-- nrf52840_ot_rcp_updater/app/models.py: validated versions, tokens and settings.
pub mod Value
pub mod Version
pub mod Firmware
pub mod Ncp
pub mod Settings
pub mod Tokens
pub mod Checks
pub mod Paths
pub mod Options
pub mod Lines
pub mod Accepted
mod Tests
