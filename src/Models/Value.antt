-- ===== src/Models/Value.antt =====
-- What decoded JSON holds, and the errors and basic checks of models.py. The name of the field,
-- which the functions take for their messages only, is left out.
use ha_nrf52840_ot_rcp_updat.Base.{
  Bool, [], ◌∷◌, Option, none, some, Result, ok, err, if◌then◌else◌,
}
use ha_nrf52840_ot_rcp_updat.Base.Int.{ℤ}
use ha_nrf52840_ot_rcp_updat.Base.Text.{Text, text_eq}

mutual
  pub data Value : Type 0 where
    null : Value
    bool : Bool → Value
    int : ℤ → Value
    -- a number with a fraction or an exponent, as it is written
    real : Text → Value
    text : Text → Value
    arr : Items → Value
    obj : Fields → Value

  pub data Items : Type 0 where
    nil : Items
    cons : Value → Items → Items

  pub data Fields : Type 0 where
    end : Fields
    field : Text → Value → Fields → Fields

-- The places where models.py raises `ValidationError`. `assertion_failed` stands for an `assert`.
pub data ValidationError : Type 0 where
  not_a_string invalid_version invalid_minor_line unsupported_characters : ValidationError
  component_too_large sequence_too_large not_representable : ValidationError
  invalid_topology invalid_dfu_version invalid_filename not_https : ValidationError
  not_a_device unsupported_baudrate out_of_range not_a_boolean : ValidationError
  invalid_sha256 summary_too_long unsupported_source not_from_release : ValidationError
  assertion_failed : ValidationError

-- `_require_string`
unfoldable pub require_string : Value → Result ValidationError Text
require_string (text []) = err not_a_string
require_string (text (c ∷ s)) = ok (c ∷ s)
require_string other = err not_a_string

-- `fields.get(key)`: none for a missing key.
abbrev pub get_field : Text → Fields → Option Value
get_field key end = none
get_field key (field name value others) =
    let later = get_field key others in if text_eq name key then some value else later

-- `None` for a missing key.
abbrev pub or_null : Option Value → Value
or_null none = null
or_null (some value) = value
