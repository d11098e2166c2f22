-- ===== src/Operation.antt =====
-- nrf52840_ot_rcp_updater/app/operation.py: admission of commands to the one hardware worker.
-- `OperationController` is a record; a method takes the record and returns the new one, and runs
-- as a whole, since the class holds its lock. The identifier that `secrets.token_hex` draws and
-- the time that `datetime.now` returns are arguments.
pub mod Command
pub mod State
pub mod Controller
pub mod Calls
pub mod Bounded
pub mod System
pub mod Agreement
pub mod Admission
pub mod Stale
pub mod Worker
mod Tests
