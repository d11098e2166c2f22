-- ===== src/Updater/Checks.antt =====
-- The checks of updater.py that do not touch the world.
use ha_nrf52840_ot_rcp_updat.Base.{
  ℕ, Bool, true, false, not, ◌&&◌, ◌||◌, List, [], ◌∷◌, ◌++◌, Option, none, some, Result, ok, err,
  ◌==◌, leb, if◌then◌else◌, ◌>>=◌, ◌>>◌, require,
}
use ha_nrf52840_ot_rcp_updat.Base.Text.{Text, codes, text_eq}
use ha_nrf52840_ot_rcp_updat.Models.Value.{Value, null, text, ValidationError, Fields, end, field}
use ha_nrf52840_ot_rcp_updat.Models.Version.{version_key, key_lt}
use ha_nrf52840_ot_rcp_updat.Models.Firmware.{FirmwareRelease, PreparedFirmware}
use ha_nrf52840_ot_rcp_updat.Models.Ncp.{NcpVersion}
use ha_nrf52840_ot_rcp_updat.Models.Settings.{Settings}
use ha_nrf52840_ot_rcp_updat.Effects.{Class, update, assertion}

abbrev pub supported_hardware : Text
supported_hardware = codes "PCA10059"

-- `MAX_ARTIFACT_BYTES`
abbrev pub max_artifact_bytes : ℕ
max_artifact_bytes = 33554432

-- `_validate_release`
unfoldable pub validate_release : FirmwareRelease → Result Class (Unit {0})
validate_release release = require (text_eq release.hardware supported_hardware) update

-- The last test of `_validate_prepared`.
unfoldable pub metadata_agrees : PreparedFirmware → Bool
metadata_agrees firmware = elim firmware.release [
  | none ↦ true
  | some release ↦
      text_eq release.hardware firmware.hardware
      && text_eq release.ncs_version firmware.ncs_version
      && text_eq release.zephyr_version firmware.zephyr_version
      && release.dfu_application_version == firmware.dfu_application_version
]

-- `size != package.size or not 1 <= size <= MAX_ARTIFACT_BYTES`
unfoldable pub size_changed : PreparedFirmware → ℕ → Bool
size_changed firmware size =
    not (size == firmware.size) || not (leb 1 size && leb size max_artifact_bytes)

-- `actual == expected` of an optional tag and a text.
unfoldable pub tag_is : Option Text → Text → Bool
tag_is none expected = false
tag_is (some actual) expected = text_eq actual expected

-- `version_key(package.ncs_version) < version_key(installed)`
unfoldable pub is_downgrade : Text → Text → Result ValidationError Bool
is_downgrade target installed = do
  target_key ← version_key target
  installed_key ← version_key installed
  ok (key_lt target_key installed_key)

abbrev pub refuse_downgrade : Bool → Result ValidationError Bool → Result Class (Unit {0})
refuse_downgrade selected_target (err invalid) = err update
refuse_downgrade selected_target (ok downgrade) =
    require (not (downgrade && not selected_target)) update

abbrev pub is_none : Option Text → Bool
is_none none = true
is_none (some tag) = false

-- `any(value is None for value in identity)`
unfoldable pub is_legacy : NcpVersion → Bool
is_legacy version =
    is_none version.hardware || is_none version.ncs_version || is_none version.zephyr_version

abbrev pub refuse_older : Bool → PreparedFirmware → Option Text → Result Class (Unit {0})
refuse_older selected_target firmware none = err assertion
refuse_older selected_target firmware (some installed) =
    refuse_downgrade selected_target (is_downgrade firmware.ncs_version installed)

-- `_validate_current_ncp`
unfoldable pub validate_current_ncp :
    Settings → NcpVersion → PreparedFirmware → Bool → Result Class (Unit {0})
validate_current_ncp settings version firmware selected_target = do
  require (not (is_legacy version && not settings.allow_legacy_rcp)) update
  require (is_none version.hardware || tag_is version.hardware supported_hardware) update
  if is_legacy version then ok tt else refuse_older selected_target firmware version.ncs_version

abbrev pub mismatch : Text → Option Text → Text → List Text
mismatch name actual expected = if tag_is actual expected then [] else name ∷ []

-- The names of the fields in `mismatches`.
unfoldable pub mismatches : NcpVersion → (hardware ncs_version zephyr_version : Text) → List Text
mismatches version hardware ncs_version zephyr_version =
    mismatch (codes "hardware") version.hardware hardware
    ++ (mismatch (codes "ncs_version") version.ncs_version ncs_version
        ++ mismatch (codes "zephyr_version") version.zephyr_version zephyr_version)

abbrev pub none_left : List Text → Result Class (Unit {0})
none_left [] = ok tt
none_left (name ∷ names) = err update

-- `_verify_expected`, and `_verify_package` and `_verify_release` on the fields of theirs.
unfoldable pub verify_expected :
    NcpVersion → (hardware ncs_version zephyr_version : Text) → Result Class (Unit {0})
verify_expected version hardware ncs_version zephyr_version =
    none_left (mismatches version hardware ncs_version zephyr_version)

unfoldable pub verify_package : NcpVersion → PreparedFirmware → Result Class (Unit {0})
verify_package version firmware =
    verify_expected version firmware.hardware firmware.ncs_version firmware.zephyr_version

-- `_matches_package`
unfoldable pub matches_package : NcpVersion → PreparedFirmware → Bool
matches_package version firmware =
    tag_is version.hardware firmware.hardware
    && tag_is version.ncs_version firmware.ncs_version
    && tag_is version.zephyr_version firmware.zephyr_version

abbrev optional_text : Option Text → Value
optional_text none = null
optional_text (some value) = text value

-- `asdict` of a version.
unfoldable pub version_fields : NcpVersion → Fields
version_fields version = field (codes "raw") (text version.raw) (
    field (codes "hardware") (optional_text version.hardware) (
      field (codes "ncs_version") (optional_text version.ncs_version) (
        field (codes "zephyr_version") (optional_text version.zephyr_version)
          (field (codes "ot_version") (optional_text version.ot_version) end))))

-- `fields[key] = value`: a key that is there keeps its place.
unfoldable pub set_field : Text → Value → Fields → Fields
set_field key value end = field key value end
set_field key value (field name old others) =
    let rest = set_field key value others in
    if text_eq name key then field name value others else field name old rest
