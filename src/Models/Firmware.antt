-- ===== src/Models/Firmware.antt =====
-- The firmware records of models.py, without the checks of their constructors. A path and a
-- link are texts.
use ha_nrf52840_ot_rcp_updat.Base.{ℕ, Option}
use ha_nrf52840_ot_rcp_updat.Base.Text.{Text}

-- `Artifact`
pub record Artifact : Type 0 where
  pub url : Text
  pub sha256 : Text
  pub filename : Text
  pub signature_url : Text

-- `FirmwareRelease`
pub record FirmwareRelease : Type 0 where
  pub hardware : Text
  pub ncs_version : Text
  pub zephyr_version : Text
  pub dfu_application_version : ℕ
  pub artifact : Artifact
  pub release_url : Text
  pub release_summary : Text

-- `PreparedFirmware`
pub record PreparedFirmware : Type 0 where
  pub path : Text
  pub hardware : Text
  pub ncs_version : Text
  pub zephyr_version : Text
  pub dfu_application_version : ℕ
  pub sha256 : Text
  pub size : ℕ
  pub source : Text
  pub release : Option FirmwareRelease
