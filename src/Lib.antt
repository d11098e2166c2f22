-- ===== src/Lib.antt =====
-- Verification of the PCA10059 OpenThread RCP updater, a Home Assistant app that replaces the
-- firmware of a radio dongle.
--
-- The program (nrf52840_ot_rcp_updater/app): `main.py` runs one worker; `ingress.py` and
-- `mqtt_update.py` submit commands to the queue of `operation.py`; `updater.py` carries a command
-- out: it stops OTBR through `supervisor.py`, asks the radio for its version over `spinel.py`,
-- flashes through `dfu.py`, verifies the version and stores it by `state.py`; `manifest.py` and
-- `manual_artifact.py` supply the firmware, `models.py` validates what they exchange.
--
-- Files:
--   Base: shared names, bit operations, texts as lists of code points, parsers.
--   Spinel: app/spinel.py. Fcs is `_fcs`; Hdlc is `hdlc_encode` and `HdlcDecoder` (the fields of
--     the class are a record, the loop body of `feed` is `decode_byte`); Packed is `pack_uint` and
--     `unpack_uint`.
--   Models: app/models.py. Value is decoded JSON; Version holds the version tags, with
--     `_VERSION_RE` as a parser; Firmware, Ncp and Settings hold the records, Checks the
--     checks of their constructors, Tokens the other expressions as tests, Paths what `Path` makes
--     of a device, and Options is `Settings.from_mapping`; Lines and Accepted are about it.
--   Manifest: app/manifest.py. Elf is `validate_rcp_elf`, with the reads of
--     `struct.unpack_from`; Releases is `releases_for` with its sort;
--     Newest is `newest_for` and `release_for` (`unique_release`); Policy, Sorted and Latest are
--     about them.
--   Preflight: app/preflight.py. Actions is what `OtbrRestClient` computes from a response; Window
--     is its check over a world that answers requests and sleeps; Idle, Listing and Quiet are
--     about it.
--   Operation: app/operation.py. Command holds the commands; State the fields of
--     `OperationController` and its private methods; Controller its public ones, with `complete`
--     under the name `finish`; Calls and System the calls of all threads in any order.
--
--   Dfu: app/dfu.py. Target holds its records, Paths the path and text functions with the
--     expressions as tests, Machine the calls of sysfs and nrfdfu, Flasher and Selection the
--     methods of `NrfDfuFlasher` (`flash` is `flash_target`); Scans, Found, Matched, Bound,
--     Probed and Flashing are about them.
--   Effects: computations that raise, change a world and write a log, with rules for contracts
--     (Hoare), for properties of logs (Keeps), for time (Timely), for values (Yields), and for
--     values with a property of the log and of the worlds visited (Finds).
--   Environment: the world as a record of calls, each free to answer, raise and change the world
--     as it likes, and the laws of its clock; Bench is a concrete one for the tests.
--   Supervisor: app/supervisor.py. Client is `SupervisorClient`; Requests, Ownership, Handover and
--     Waiting are about it.
--   Updater: app/updater.py with `update_lock` of app/state.py. Checks holds the tests that do not
--     touch the world, Steps the private methods, Transaction `install`, `prepare_release`,
--     `install_prepared` and `current_version`; the other files are about these.
--
-- A loop on the clock has the rounds of its timeout: `rounds timeout step` is more than
-- timeout / step, so on a clock that runs on while the program sleeps the deadline comes first.
-- The failure `out_of_rounds` stands for rounds used up. `with` and `finally` are written out on
-- how the body has ended. A message of an exception is left out, a note of `add_note` is kept.
--
-- Numbers are naturals; a byte is a number below 256 where a statement says so. A raise is the
-- error of a result, one constructor for each place or class that the program tells apart; the
-- texts of messages are left out. `pack_uint` recurs on the accessibility of its value, so it
-- needs no fuel; `unpack_uint` has the five rounds of its source.
--
-- Not modelled: the downloads and `from_bytes` of manifest.py, `preflight` and `diagnostics` of
-- updater.py, the rest of state.py,
-- manual_artifact.py, mqtt_update.py, ingress.py, main.py, the tools, the web panel.
pub mod Base
pub mod Models
pub mod Spinel
pub mod Operation
pub mod Manifest
pub mod Preflight
pub mod Dfu
pub mod Effects
pub mod Environment
pub mod Supervisor
pub mod Updater
