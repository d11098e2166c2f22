-- ===== src/Supervisor.antt =====
-- nrf52840_ot_rcp_updater/app/supervisor.py: requests to the Supervisor, and the ownership of OTBR.
pub mod Client
pub mod Requests
pub mod Ownership
pub mod Handover
pub mod Waiting
mod Tests
