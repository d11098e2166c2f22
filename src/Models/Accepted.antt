-- ===== src/Models/Accepted.antt =====
-- What the settings hold that `Settings.from_mapping` of models.py accepts.
use ha_nrf52840_ot_rcp_updat.Base.{◌≤◌, ◌≡◌, true, Option, none, some}
use ha_nrf52840_ot_rcp_updat.Base.Text.{Text}
use ha_nrf52840_ot_rcp_updat.Models.Paths.Below.{IsInDev}
use ha_nrf52840_ot_rcp_updat.Models.Value.{Value}
use ha_nrf52840_ot_rcp_updat.Models.Tokens.{is_token, is_usb_topology}
use ha_nrf52840_ot_rcp_updat.Models.Lines.{IsMinorLine}
use ha_nrf52840_ot_rcp_updat.Models.Settings.{Settings}
use ha_nrf52840_ot_rcp_updat.Models.Options.{is_baudrate}

-- A predicate of an optional text, where it is there.
abbrev pub IfGiven : (Text → Type 0) → Option Text → Type 0
IfGiven P none = Unit {0}
IfGiven P (some value) = P value

-- The settings are within their limits.
pub record IsAccepted (s : Settings) : Type 0 where
  pub device : IsInDev s.device
  pub baudrate : is_baudrate s.baudrate ≡ true
  pub poll : (300 ≤ s.manifest_poll_interval) × (s.manifest_poll_interval ≤ 86400)
  pub idle : (10 ≤ s.idle_window) × (s.idle_window ≤ 300)
  pub boot : (15 ≤ s.boot_timeout) × (s.boot_timeout ≤ 120)
  pub serial : IfGiven (λ value. is_token value ≡ true) s.dfu_serial_number
  pub usb_path : IfGiven (λ value. is_usb_topology value ≡ true) s.dfu_usb_path
  pub pinned : IfGiven IsMinorLine s.pinned_ncs_minor
