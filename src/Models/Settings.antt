-- ===== src/Models/Settings.antt =====
-- `Settings` of models.py.
use ha_nrf52840_ot_rcp_updat.Base.{ℕ, Bool, Option}
use ha_nrf52840_ot_rcp_updat.Base.Text.{Text}

pub record Settings : Type 0 where
  pub device : Text
  pub baudrate : ℕ
  pub safe_update : Bool
  pub qemu_usb_reenumeration_workaround : Bool
  pub allow_legacy_rcp : Bool
  pub allow_prereleases : Bool
  pub pinned_ncs_minor : Option Text
  pub dfu_serial_number : Option Text
  pub dfu_usb_path : Option Text
  pub manifest_poll_interval : ℕ
  pub idle_window : ℕ
  pub boot_timeout : ℕ
