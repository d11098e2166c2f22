-- ===== src/Models/Tests.antt =====
-- Version tags on which models.py is run, and the theorems at inputs that meet their hypotheses.
use ha_nrf52840_ot_rcp_updat.Base.{◌<◌, ◌≡◌, refl, ◌↔◌, true, false, none, some, ok, err}
use ha_nrf52840_ot_rcp_updat.Base.Text.{Text, codes, text_eq}
use ha_nrf52840_ot_rcp_updat.Base.Parser.{parse_all, int_of}
use ha_nrf52840_ot_rcp_updat.Models.Value.{
  text, Fields, end, field, sequence_too_large, invalid_version,
}
use ha_nrf52840_ot_rcp_updat.Models.Version.{
  rc, Version, VersionKey, version_parser, match_version, version_key, key_lt,
  ncs_dfu_application_version,
}
use ha_nrf52840_ot_rcp_updat.Models.Settings.{Settings}
use ha_nrf52840_ot_rcp_updat.Models.Paths.{split, kept, joined, path}
use ha_nrf52840_ot_rcp_updat.Models.Version.Grammar.{IsVersion, version_text, version_parser_iff}
use ha_nrf52840_ot_rcp_updat.Models.Version.Order.{ncs_dfu_application_version_order}

abbrev candidate : Text
candidate = codes "3.1.0-rc2"

abbrev groups : Version
groups = record {
  major = codes "3";
  minor = codes "1";
  patch = codes "0";
  prerelease = some (rc, codes "2");
}

version_parser_iff_example :
    (parse_all version_parser candidate ≡ some groups)
    ↔ (IsVersion groups × (candidate ≡ version_text groups))
version_parser_iff_example = version_parser_iff candidate groups

rejected :
    (version_key (codes "3.1") ≡ err invalid_version)
    × (version_key (codes "3.1.0-rc0") ≡ err invalid_version)
    × (ncs_dfu_application_version (codes "3.1.0-rc50") ≡ err sequence_too_large)
unfolding version_key ncs_dfu_application_version match_version int_of
rejected = (refl, refl, refl)

abbrev candidate_key : VersionKey
candidate_key = record { major = 3; minor = 1; patch = 0; stage = 1; sequence = 2 }

abbrev final_key : VersionKey
final_key = record { major = 3; minor = 1; patch = 0; stage = 2; sequence = 0 }

keys : (version_key candidate ≡ ok candidate_key) × (version_key (codes "3.1.0") ≡ ok final_key)
unfolding version_key match_version int_of
keys = (refl, refl)

numbers :
    (ncs_dfu_application_version candidate ≡ ok 300100051)
    × (ncs_dfu_application_version (codes "3.1.0") ≡ ok 300100099)
unfolding ncs_dfu_application_version match_version int_of
numbers = (refl, refl)

ncs_dfu_application_version_order_example :
    (key_lt candidate_key final_key ≡ true) ↔ (300100051 < 300100099)
ncs_dfu_application_version_order_example =
    ncs_dfu_application_version_order candidate (codes "3.1.0") candidate_key final_key 300100051
      300100099 keys.0 keys.1 numbers.0 numbers.1

abbrev given_options : Fields
given_options = field (codes "device") (text (codes "/dev/ttyACM0")) (
    field (codes "baudrate") (text (codes "460800")) (
      field (codes "pinned_ncs_minor") (text (codes "03.1"))
        (field (codes "dfu_usb_path") (text (codes "2-3.1")) end)))

abbrev given_settings : Settings
given_settings = record {
  device = codes "/dev/ttyACM0";
  baudrate = 460800;
  safe_update = true;
  qemu_usb_reenumeration_workaround = false;
  allow_legacy_rcp = false;
  allow_prereleases = false;
  pinned_ncs_minor = some (codes "3.1");
  dfu_serial_number = none;
  dfu_usb_path = some (codes "2-3.1");
  manifest_poll_interval = 3600;
  idle_window = 20;
  boot_timeout = 90;
}

paths_normal :
    (path (codes "/dev/") ≡ codes "/dev")
    × (path (codes "/dev//serial/./by-id/x/") ≡ codes "/dev/serial/by-id/x")
    × (path (codes "/dev/../x") ≡ codes "/dev/../x")
unfolding path split kept joined text_eq
paths_normal = (refl, refl, refl)
