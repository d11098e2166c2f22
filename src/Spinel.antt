-- ===== src/Spinel.antt =====
-- nrf52840_ot_rcp_updater/app/spinel.py: the frame check sequence, HDLC framing, packed integers
-- and the client that asks the radio for its version.
pub mod Errors
pub mod Fcs
pub mod Hdlc
pub mod Packed
mod Tests
