-- ===== src/Environment/Bench.antt =====
-- A concrete world to run the transactions of updater.py in: OTBR stops and starts when asked,
-- and the radio runs the new firmware once it was flashed.
use ha_nrf52840_ot_rcp_updat.Base.{
  ℕ, ◌+◌, ◌≤◌, arith, Bool, true, false, List, none, some, ok, err, if◌then◌else◌,
}
use ha_nrf52840_ot_rcp_updat.Base.Text.{Text, codes, text_eq}
use ha_nrf52840_ot_rcp_updat.Models.Value.{Value, text, obj, end, field}
use ha_nrf52840_ot_rcp_updat.Models.Ncp.{NcpVersion}
use ha_nrf52840_ot_rcp_updat.Dfu.Target.{DfuSelector, DfuTargetProbe}
use ha_nrf52840_ot_rcp_updat.Effects.{dfu, Call}
use ha_nrf52840_ot_rcp_updat.Environment.{Method, get, post, Environment, ClockLaws}

pub record Bench : Type 0 where
  pub clock : ℕ
  pub otbr_up : Bool
  pub flashed : Bool

abbrev pub bench_start : Bench
bench_start = record { clock = 7; otbr_up = true; flashed = false }

abbrev stop_path : Text
stop_path = codes "/addons/core_openthread_border_router/stop"

abbrev state_of : Bool → Value
state_of up = obj (
    field (codes "data")
      (obj (field (codes "state") (text (if up then codes "Started" else codes "stopped")) end))
      end)

abbrev answer : Method → Text → Call Bench Value
answer get path w = (ok (state_of w.otbr_up), w)
answer post path w = (ok (obj end), record w { otbr_up = not_stop path })
  where
    not_stop : Text → Bool
    not_stop path = if text_eq path stop_path then false else true

abbrev pub old_version : NcpVersion
old_version = record {
  raw = codes "old";
  hardware = some (codes "PCA10059");
  ncs_version = some (codes "3.0.0");
  zephyr_version = some (codes "4.0.99");
  ot_version = none;
}

abbrev pub new_version : NcpVersion
new_version = record {
  raw = codes "new";
  hardware = some (codes "PCA10059");
  ncs_version = some (codes "3.1.0");
  zephyr_version = some (codes "4.1.99");
  ot_version = none;
}

abbrev selector : DfuSelector
selector = record { physical_path = some (codes "1-2"); serial_number = none; usb_path = none }

abbrev probe : DfuTargetProbe
probe = record { present = true; diagnostic = codes "ready"; target = none; ready = true }

-- The bench, with the bytes of every file.
abbrev pub bench : List ℕ → Environment Bench
bench bytes = record {
  monotonic = λ w. w.clock;
  sleep = λ d w. record w { clock = w.clock + d };
  utc_now = λ w. codes "now";
  send = answer;
  size_of = λ path w. (ok 88, w);
  read_bytes = λ path w. (ok bytes, w);
  exists = λ path w. (ok true, w);
  sha256_hex = λ bytes. codes "digest";
  download_artifact = λ release w. (ok (codes "/data/rcp.elf"), w);
  acquire_lock = λ w. (ok tt, w);
  release_lock = λ w. (ok tt, w);
  load = λ w. (ok (field (codes "installed") (text (codes "unknown")) end), w);
  save = λ fields w. (ok tt, w);
  get_ncp_version =
      λ w. (ok (if w.flashed then new_version else old_version), record w { clock = w.clock + 3 });
  reset_bootloader = λ w. (ok tt, w);
  selector_for_device = λ device serial w. (ok selector, w);
  bootloader_selector = λ serial path w. (err dfu, w);
  probe_dfu_target = λ found w. (ok probe, w);
  flash = λ path found version w. (ok tt, record w { flashed = true });
  reboot_application = λ target w. (ok tt, w);
  require_quiet_management_window = λ window w. (ok tt, w);
  require_healthy = λ w. (ok tt, w);
}

sends_forward :
    (method : Method) (path : Text) (w : Bench) → w.clock ≤ (answer method path w).1.clock
sends_forward get path w = omega arith
sends_forward post path w = omega arith

pub bench_laws : (bytes : List ℕ) → ClockLaws (bench bytes)
bench_laws bytes = record {
  sleeps = λ d w. omega arith;
  send = sends_forward;
  size_of = λ path w. omega arith;
  read_bytes = λ path w. omega arith;
  exists = λ path w. omega arith;
  download_artifact = λ release w. omega arith;
  acquire_lock = λ w. omega arith;
  release_lock = λ w. omega arith;
  load = λ w. omega arith;
  save = λ fields w. omega arith;
  get_ncp_version = λ w. omega arith;
  reset_bootloader = λ w. omega arith;
  selector_for_device = λ device serial w. omega arith;
  bootloader_selector = λ serial path w. omega arith;
  probe_dfu_target = λ found w. omega arith;
  flash = λ path found version w. omega arith;
  reboot_application = λ target w. omega arith;
  require_quiet_management_window = λ window w. omega arith;
  require_healthy = λ w. omega arith;
}
