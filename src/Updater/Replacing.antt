-- ===== src/Updater/Replacing.antt =====
-- Replacing the firmware, in updater.py, keeps every property of logs that the accesses to the
-- radio keep.
use ha_nrf52840_ot_rcp_updat.Base.{Bool, List, Option, none, some}
use ha_nrf52840_ot_rcp_updat.Models.Firmware.{PreparedFirmware}
use ha_nrf52840_ot_rcp_updat.Models.Ncp.{NcpVersion}
use ha_nrf52840_ot_rcp_updat.Models.Settings.{Settings}
use ha_nrf52840_ot_rcp_updat.Dfu.Target.{DfuSelector}
use ha_nrf52840_ot_rcp_updat.Effects.{assertion, Event}
use ha_nrf52840_ot_rcp_updat.Effects.Keeps.{
  Keeps, Keeps-pure, Keeps-catch, Keeps-on_class, Keeps-raise, Keeps-write, Keeps-bind, step_rules,
}
use ha_nrf52840_ot_rcp_updat.Environment.{Environment}
use ha_nrf52840_ot_rcp_updat.Updater.Steps.{Reporter, is_spinel}
use ha_nrf52840_ot_rcp_updat.Updater.StepsKeep.{
  Owned, report_progress-Keeps, settle-Keeps, bootloader_recovery_selector-Keeps,
  spinel_version-Keeps, wait_for_expected_release-Keeps,
}
use ha_nrf52840_ot_rcp_updat.Updater.Transaction.{
  ask_radio, find_radio, or_assert, enter_bootloader, transfer, verify_radio, flash_radio,
  update_radio, replace_firmware,
}

module _ {W : Type 0} (env : Environment W) (settings : Settings) (progress : Option (Reporter W))
    (firmware : PreparedFirmware) (selected_target : Bool) {I : List Event → Type 0}
    (owned : Owned I) where
  ask_radio-Keeps : Keeps I (ask_radio env settings progress firmware selected_target)
  unfolding ask_radio
  ask_radio-Keeps =
      Keeps-catch _ _
        (Keeps-bind _ _ (spinel_version-Keeps env settings owned)
          (λ version. Keeps-pure (some version, none)))
        (λ failure. Keeps-on_class is_spinel _ failure (
          Keeps-bind _ _ (bootloader_recovery_selector-Keeps env settings selected_target)
            (λ selector. Keeps-pure (none, some selector))))

  find_radio-Keeps :
      (preselected : Option DfuSelector)
      → Keeps I (find_radio env settings progress firmware selected_target preselected)
  unfolding find_radio
  find_radio-Keeps none = ask_radio-Keeps
  find_radio-Keeps (some selector) = Keeps-pure (none, some selector)

  or_assert-Keeps :
      (found : Option DfuSelector)
      → Keeps I (or_assert env settings progress firmware selected_target found)
  or_assert-Keeps none = Keeps-raise assertion
  or_assert-Keeps (some selector) = Keeps-pure selector

  enter_bootloader-Keeps :
      (before : Option NcpVersion) (found : Option DfuSelector)
      → Keeps I (enter_bootloader env settings progress firmware selected_target before found)
  unfolding enter_bootloader
  enter_bootloader-Keeps none found =
      search (step_rules, or_assert-Keeps, report_progress-Keeps env settings) depth 8
  enter_bootloader-Keeps (some before) found =
      search
        (
          step_rules,
          Keeps-write,
          owned.resetting,
          report_progress-Keeps env settings,
          settle-Keeps env settings,
        )
        depth 12

  transfer-Keeps :
      (selector : DfuSelector)
      → Keeps I (transfer env settings progress firmware selected_target selector)
  unfolding transfer
  transfer-Keeps selector = search (step_rules, Keeps-write, owned.flashing selector) depth 8

  verify_radio-Keeps :
      (selector : DfuSelector) (transferred : Bool)
      → Keeps I (verify_radio env settings progress firmware selected_target selector transferred)
  unfolding verify_radio
  verify_radio-Keeps selector transferred =
      search
        (
          step_rules,
          report_progress-Keeps env settings,
          settle-Keeps env settings,
          wait_for_expected_release-Keeps env settings owned,
        )
        depth 9

  flash_radio-Keeps :
      (before : Option NcpVersion) (found : Option DfuSelector)
      → Keeps I (flash_radio env settings progress firmware selected_target before found)
  unfolding flash_radio
  flash_radio-Keeps before found =
      search
        (
          step_rules,
          enter_bootloader-Keeps,
          report_progress-Keeps env settings,
          transfer-Keeps,
          verify_radio-Keeps,
        )
        depth 8

  update_radio-Keeps :
      (radio : Option NcpVersion × Option DfuSelector)
      → Keeps I (update_radio env settings progress firmware selected_target radio)
  unfolding update_radio
  update_radio-Keeps (none, found) = flash_radio-Keeps none found
  update_radio-Keeps (some before, found) =
      search (step_rules, report_progress-Keeps env settings, flash_radio-Keeps) depth 8

  pub replace_firmware-Keeps :
      (preselected : Option DfuSelector) (otbr_was_running was_running : Bool)
      → Keeps I (
          replace_firmware env settings progress firmware selected_target preselected
            otbr_was_running was_running)
  unfolding replace_firmware
  replace_firmware-Keeps preselected otbr_was_running was_running =
      search (step_rules, find_radio-Keeps, update_radio-Keeps) depth 8
