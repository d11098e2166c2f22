-- ===== src/Models/Checks.antt =====
-- The checks of the constructors `Artifact`, `FirmwareRelease` and `PreparedFirmware` of models.py.
use ha_nrf52840_ot_rcp_updat.Base.{
  ℕ, Bool, true, ◌&&◌, [], ◌∷◌, length, Option, none, some, Result, ok, leb, require, ◌>>=◌, ◌>>◌,
}
use ha_nrf52840_ot_rcp_updat.Base.Int.{pos}
use ha_nrf52840_ot_rcp_updat.Base.Text.{Text, codes, text_eq, text_in, starts_with}
use ha_nrf52840_ot_rcp_updat.Models.Value.{
  int, text, ValidationError, not_https, invalid_sha256, summary_too_long, unsupported_source,
  not_from_release, out_of_range,
}
use ha_nrf52840_ot_rcp_updat.Models.Tokens.{
  is_sha256, validate_token, validate_artifact_filename, validate_dfu_application_version,
}
use ha_nrf52840_ot_rcp_updat.Models.Version.{validate_version}
use ha_nrf52840_ot_rcp_updat.Models.Firmware.{Artifact, FirmwareRelease, PreparedFirmware}

abbrev pub is_https : Text → Bool
is_https url = starts_with url (codes "https://")

unfoldable pub check_artifact : Artifact → Result ValidationError (Unit {0})
check_artifact artifact = do
  require (is_https artifact.url) not_https
  require (is_sha256 artifact.sha256) invalid_sha256
  filename ← validate_artifact_filename (text artifact.filename)
  require (is_https artifact.signature_url) not_https

-- The checks that a release and a prepared firmware share.
abbrev pub check_identity :
    (hardware ncs_version zephyr_version : Text) → ℕ → Result ValidationError (Unit {0})
check_identity hardware ncs_version zephyr_version dfu_application_version = do
  token ← validate_token (text hardware)
  ncs ← validate_version (text ncs_version)
  zephyr ← validate_version (text zephyr_version)
  version ← validate_dfu_application_version (int (pos dfu_application_version))
  ok tt

unfoldable pub check_release : FirmwareRelease → Result ValidationError (Unit {0})
check_release release = do
  check_identity release.hardware release.ncs_version release.zephyr_version
      release.dfu_application_version
  require (is_https release.release_url) not_https
  require (leb (length release.release_summary) 255) summary_too_long

abbrev pub release_fits : Option FirmwareRelease → Text → Bool
release_fits none source = true
release_fits (some release) source = text_eq source (codes "release")

unfoldable pub check_prepared : PreparedFirmware → Result ValidationError (Unit {0})
check_prepared firmware = do
  check_identity firmware.hardware firmware.ncs_version firmware.zephyr_version
      firmware.dfu_application_version
  require (is_sha256 firmware.sha256) invalid_sha256
  require (leb 1 firmware.size && leb firmware.size 33554432) out_of_range
  require (text_in firmware.source (codes "release" ∷ codes "url" ∷ codes "upload" ∷ []))
      unsupported_source
  require (release_fits firmware.release firmware.source) not_from_release
