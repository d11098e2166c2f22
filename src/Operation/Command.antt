-- ===== src/Operation/Command.antt =====
-- `FlashCommand` and `QueuedOperation` of operation.py, and its exceptions.
use ha_nrf52840_ot_rcp_updat.Base.{
  Bool, true, false, ◌||◌, List, [], ◌∷◌, Option, none, some, Result, ok, err, if◌then◌else◌,
}
use ha_nrf52840_ot_rcp_updat.Base.Text.{Text, codes, text_in}
use ha_nrf52840_ot_rcp_updat.Models.Firmware.{PreparedFirmware}

-- `OperationBusyError`, and the places of a `ValueError`.
pub data OperationError : Type 0 where
  already_active queue_unavailable : OperationError
  unexpected_artifact missing_artifact unsupported_source progress_out_of_range : OperationError

pub data OperationType : Type 0 where
  install_latest install_prepared : OperationType

pub record FlashCommand : Type 0 where
  pub operation_type : OperationType
  pub source : Text
  pub prepared : Option PreparedFirmware
  pub cleanup_path : Option Text

abbrev is_some : {A : Type 0} → Option A → Bool
is_some none = false
is_some (some _) = true

abbrev artifact_problem : FlashCommand → Option OperationError
artifact_problem command = elim command.operation_type [
  | install_latest ↦
      if is_some command.prepared || is_some command.cleanup_path
      then some unexpected_artifact
      else none
  | install_prepared ↦ if is_some command.prepared then none else some missing_artifact
]

abbrev sources : List Text
sources = codes "mqtt" ∷ codes "release" ∷ codes "url" ∷ codes "upload" ∷ []

-- `FlashCommand.__post_init__`: the command, when its constructor does not raise.
unfoldable pub post_init : FlashCommand → Result OperationError FlashCommand
post_init command = elim (artifact_problem command) [
  | some problem ↦ err problem
  | none ↦ if text_in command.source sources then ok command else err unsupported_source
]

-- The class methods `install_latest` and `install_prepared`.
unfoldable pub latest_command : Result OperationError FlashCommand
latest_command = post_init (record {
  operation_type = install_latest;
  source = codes "mqtt";
  prepared = none;
  cleanup_path = none;
})

unfoldable pub prepared_command :
    PreparedFirmware → Option Text → Result OperationError FlashCommand
prepared_command firmware path = post_init (record {
  operation_type = install_prepared;
  source = firmware.source;
  prepared = some firmware;
  cleanup_path = path;
})

pub record QueuedOperation : Type 0 where
  pub identifier : Text
  pub command : FlashCommand
