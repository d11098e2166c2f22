-- ===== src/Dfu/Target.antt =====
-- The records of dfu.py. A path is a text.
use ha_nrf52840_ot_rcp_updat.Base.{ℕ, Bool, Option}
use ha_nrf52840_ot_rcp_updat.Base.Text.{Text}

-- `DfuTarget`
pub record DfuTarget : Type 0 where
  pub serial_number : Text
  pub physical_path : Text
  pub serial_port : Option Text

-- `DfuTargetProbe`
pub record DfuTargetProbe : Type 0 where
  pub present : Bool
  pub diagnostic : Text
  pub target : Option DfuTarget
  pub ready : Bool

-- `DfuSelector`
pub record DfuSelector : Type 0 where
  pub physical_path : Option Text
  pub serial_number : Option Text
  pub usb_path : Option Text

-- An argument of a command line; a number is printed in decimal.
pub data Argument : Type 0 where
  word : Text → Argument
  number : ℕ → Argument
