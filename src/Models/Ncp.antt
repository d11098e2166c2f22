-- ===== src/Models/Ncp.antt =====
-- `NcpVersion` of models.py. The raw text and the OpenThread version are carried along only.
use ha_nrf52840_ot_rcp_updat.Base.{Option}
use ha_nrf52840_ot_rcp_updat.Base.Text.{Text}

pub record NcpVersion : Type 0 where
  pub raw : Text
  pub hardware : Option Text
  pub ncs_version : Option Text
  pub zephyr_version : Option Text
  pub ot_version : Option Text
