-- ===== src/Updater/Tests.antt =====
-- The transactions of updater.py on a concrete world.
use ha_nrf52840_ot_rcp_updat.Base.{◌≡◌, refl, ◌↔◌, ok, true, false, [], none, Result}
use ha_nrf52840_ot_rcp_updat.Base.Text.{codes}
use ha_nrf52840_ot_rcp_updat.Models.Firmware.{PreparedFirmware}
use ha_nrf52840_ot_rcp_updat.Models.Ncp.{NcpVersion}
use ha_nrf52840_ot_rcp_updat.Models.Settings.{Settings}
use ha_nrf52840_ot_rcp_updat.Manifest.Sample.{image_at}
use ha_nrf52840_ot_rcp_updat.Effects.{Failure, St}
use ha_nrf52840_ot_rcp_updat.Environment.Bench.{bench_laws, Bench, bench_start, bench, old_version}
use ha_nrf52840_ot_rcp_updat.Updater.Transaction.{install_prepared, current_version}
use ha_nrf52840_ot_rcp_updat.Updater.Checks.{validate_current_ncp}
use ha_nrf52840_ot_rcp_updat.Updater.Allowed.{IsAllowed, validate_current_ncp_iff}
use ha_nrf52840_ot_rcp_updat.Updater.Safety.{
  IsSafe, is_locked, install_prepared-IsSafe, current_version-IsSafe,
}
use ha_nrf52840_ot_rcp_updat.Effects.Timely.{IsTimely}
use ha_nrf52840_ot_rcp_updat.Updater.Termination.{install_prepared-IsTimely}
use ha_nrf52840_ot_rcp_updat.Updater.Verified.{EndsVerified, install_prepared-EndsVerified}

abbrev settings : Settings
settings = record {
  device = codes "/dev/ttyACM0";
  baudrate = 460800;
  safe_update = true;
  qemu_usb_reenumeration_workaround = false;
  allow_legacy_rcp = false;
  allow_prereleases = false;
  pinned_ncs_minor = none;
  dfu_serial_number = none;
  dfu_usb_path = none;
  manifest_poll_interval = 3600;
  idle_window = 30;
  boot_timeout = 60;
}

abbrev firmware : PreparedFirmware
firmware = record {
  path = codes "/data/rcp.elf";
  hardware = codes "PCA10059";
  ncs_version = codes "3.1.0";
  zephyr_version = codes "4.1.99";
  dfu_application_version = 5;
  sha256 = codes "digest";
  size = 88;
  source = codes "manifest";
  release = none;
}

abbrev start_state : St Bench
start_state = record { world = bench_start; log = [] }

abbrev ended : Result Failure NcpVersion × St Bench
ended = install_prepared (bench (image_at 0x10)) settings none firmware false false start_state

install_prepared-IsSafe_example : IsSafe ended.1.log × (is_locked ended.1.log ≡ false)
install_prepared-IsSafe_example =
    install_prepared-IsSafe (bench (image_at 0x10)) settings none firmware false false start_state
      tt refl

current_version-IsSafe_example :
    let after = (current_version (bench []) settings start_state).1.log in
    IsSafe after × (is_locked after ≡ false)
current_version-IsSafe_example = current_version-IsSafe (bench []) settings start_state tt refl

install_prepared-EndsVerified_example : EndsVerified firmware ended
install_prepared-EndsVerified_example =
    install_prepared-EndsVerified (bench (image_at 0x10)) settings none firmware false false
      bench_start

validate_current_ncp_iff_example :
    (validate_current_ncp settings old_version firmware false ≡ ok tt)
    ↔ IsAllowed settings old_version firmware false
validate_current_ncp_iff_example = validate_current_ncp_iff settings firmware false old_version

install_prepared-IsTimely_example :
    IsTimely
      (bench (image_at 0x10)).monotonic
      (install_prepared (bench (image_at 0x10)) settings none firmware false false)
install_prepared-IsTimely_example =
    install_prepared-IsTimely (bench (image_at 0x10)) (bench_laws (image_at 0x10)) settings none tt
      firmware false false
