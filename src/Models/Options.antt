-- ===== src/Models/Options.antt =====
-- `Settings.from_mapping` of models.py. A key that is there with the value `null` has no default.
use ha_nrf52840_ot_rcp_updat.Base.{
  ℕ, Bool, true, false, ◌&&◌, ◌||◌, [], ◌∷◌, all, Option, none, some, Result, ok, err, leb, ◌==◌,
  if◌then◌else◌, require, ◌>>=◌, ◌>>◌,
}
use ha_nrf52840_ot_rcp_updat.Base.Int.{ℤ, pos}
use ha_nrf52840_ot_rcp_updat.Base.Text.{Text, codes, starts_with}
use ha_nrf52840_ot_rcp_updat.Base.Parser.{is_digit, int_of}
use ha_nrf52840_ot_rcp_updat.Models.Value.{
  Value, null, bool, int, text, Fields, get_field, or_null, ValidationError, not_a_device,
  unsupported_baudrate, out_of_range, not_a_boolean, require_string,
}
use ha_nrf52840_ot_rcp_updat.Models.Tokens.{
  validate_token, validate_usb_topology, validate_minor_line,
}
use ha_nrf52840_ot_rcp_updat.Models.Paths.{path}
use ha_nrf52840_ot_rcp_updat.Models.Settings.{Settings}

-- `options.get(name, default)`
abbrev pub get_or : Text → Value → Fields → Value
get_or name default options = elim (get_field name options) [ none ↦ default | some value ↦ value ]

-- `isinstance(value, int)` and its value: a Boolean is an integer too.
abbrev pub as_int : Value → Option ℤ
as_int (int z) = some z
as_int (bool true) = some (pos 1)
as_int (bool false) = some (pos 0)
as_int value = none

-- A text of decimal digits stands for its number.
abbrev pub is_decimal : Text → Bool
is_decimal [] = false
is_decimal (c ∷ rest) = all is_digit (c ∷ rest)

abbrev pub baudrate_value : Value → Value
baudrate_value (text value) = if is_decimal value then int (pos (int_of value)) else text value
baudrate_value value = value

abbrev pub is_baudrate : ℕ → Bool
is_baudrate n =
    n == 57600 || n == 115200 || n == 230400 || n == 460800 || n == 921600 || n == 1000000

abbrev pub checked_baudrate : Option ℤ → Result ValidationError ℕ
checked_baudrate (some (pos n)) = do require (is_baudrate n) unsupported_baudrate; ok n
checked_baudrate found = err unsupported_baudrate

-- `isinstance(value, int) and low <= value <= high`
abbrev pub between : ℕ → ℕ → Option ℤ → Result ValidationError ℕ
between low high (some (pos n)) = do require (leb low n && leb n high) out_of_range; ok n
between low high found = err out_of_range

-- `option_bool`
abbrev pub as_bool : Value → Result ValidationError Bool
as_bool (bool b) = ok b
as_bool value = err not_a_boolean

abbrev pub option_bool : Fields → Text → Bool → Result ValidationError Bool
option_bool options name default = as_bool (get_or name (bool default) options)

-- `_optional_string`, and the check of what is there.
abbrev pub optional_string : Value → Result ValidationError (Option Text)
optional_string null = ok none
optional_string (text []) = ok none
optional_string value = do found ← require_string value; ok (some found)

abbrev pub if_given :
    (Value → Result ValidationError Text) → Option Text → Result ValidationError (Option Text)
if_given check none = ok none
if_given check (some value) = do checked ← check (text value); ok (some checked)

abbrev pub optional :
    (Value → Result ValidationError Text) → Text → Fields → Result ValidationError (Option Text)
optional check name options = do
  found ← optional_string (or_null (get_field name options))
  if_given check found

abbrev pub option_baudrate : Fields → Result ValidationError ℕ
option_baudrate options =
    checked_baudrate
      (as_int (baudrate_value (get_or (codes "baudrate") (int (pos 1000000)) options)))

abbrev pub option_seconds : Fields → Text → (default low high : ℕ) → Result ValidationError ℕ
option_seconds options name default low high =
    between low high (as_int (get_or name (int (pos default)) options))

unfoldable pub from_mapping : Fields → Result ValidationError Settings
from_mapping options = do
  device ← require_string (or_null (get_field (codes "device") options))
  require (starts_with device (codes "/dev/")) not_a_device
  baudrate ← option_baudrate options
  poll ← option_seconds options (codes "manifest_poll_interval") 3600 300 86400
  idle ← option_seconds options (codes "idle_window") 20 10 300
  boot ← option_seconds options (codes "boot_timeout") 90 15 120
  serial ← optional validate_token (codes "dfu_serial_number") options
  usb_path ← optional validate_usb_topology (codes "dfu_usb_path") options
  legacy ← option_bool options (codes "allow_legacy_rcp") false
  pinned ← optional validate_minor_line (codes "pinned_ncs_minor") options
  safe ← option_bool options (codes "safe_update") true
  workaround ← option_bool options (codes "qemu_usb_reenumeration_workaround") false
  prereleases ← option_bool options (codes "allow_prereleases") false
  ok (record {
    device = path device;
    baudrate = baudrate;
    safe_update = safe;
    qemu_usb_reenumeration_workaround = workaround;
    allow_legacy_rcp = legacy;
    allow_prereleases = prereleases;
    pinned_ncs_minor = pinned;
    dfu_serial_number = serial;
    dfu_usb_path = usb_path;
    manifest_poll_interval = poll;
    idle_window = idle;
    boot_timeout = boot;
  })
