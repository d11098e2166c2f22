-- ===== src/Updater/StepsKeep.antt =====
-- The steps of updater.py keep every property of logs that the accesses to the radio keep.
use ha_nrf52840_ot_rcp_updat.Base.{ℕ, zero, suc, Bool, List, ◌∷◌, Option, none, some}
use ha_nrf52840_ot_rcp_updat.Base.Text.{Text}
use ha_nrf52840_ot_rcp_updat.Models.Firmware.{PreparedFirmware}
use ha_nrf52840_ot_rcp_updat.Models.Ncp.{NcpVersion}
use ha_nrf52840_ot_rcp_updat.Models.Settings.{Settings}
use ha_nrf52840_ot_rcp_updat.Dfu.Target.{DfuSelector, DfuTarget, DfuTargetProbe}
use ha_nrf52840_ot_rcp_updat.Effects.{update, Event, read_version, reset, reboot, flash, M}
use ha_nrf52840_ot_rcp_updat.Effects.Keeps.{Keeps, Keeps-pure, Keeps-raise, Keeps-write, step_rules}
use ha_nrf52840_ot_rcp_updat.Environment.{Environment}
use ha_nrf52840_ot_rcp_updat.Supervisor.Requests.{Stable, addon_state-Keeps}
use ha_nrf52840_ot_rcp_updat.Updater.Steps.{
  Reporter, report_progress, settle, spinel_version, read_artifact, validate_prepared,
  probe_recovery, accept_target, bootloader_recovery_selector, selector_if_rcp_is_missing,
  prepare_running, prepare_safe_update, read_expected, poll_round, poll_loop, poll_release,
  or_update, wait_without_selector, reboot_target, reboot_and_wait, retry,
  wait_for_expected_release, health_round, health_loop, require_otbr_healthy,
}

-- A property of logs that the accesses to the radio keep.
pub record Owned (I : List Event → Type 0) : Type 0 where
  pub reading : (log : List Event) → I log → I (read_version ∷ log)
  pub rebooting : (log : List Event) → I log → I (reboot ∷ log)
  pub resetting : (log : List Event) → I log → I (reset ∷ log)
  pub flashing : (selector : DfuSelector) (log : List Event) → I log → I (flash selector ∷ log)

module _ {W : Type 0} (env : Environment W) (settings : Settings) {I : List Event → Type 0} where
  pub report_progress-Keeps :
      (progress : Option (Reporter W)) (percentage : Option ℕ) (stage : Text)
      → Keeps I (report_progress env settings progress percentage stage)
  unfolding report_progress
  report_progress-Keeps none percentage stage = search step_rules
  report_progress-Keeps (some progress) percentage stage = search step_rules

  pub settle-Keeps :
      (progress : Option (Reporter W)) (personality : Text)
      → Keeps I (settle env settings progress personality)
  unfolding settle
  settle-Keeps progress personality = search (step_rules, report_progress-Keeps)

  read_artifact-Keeps :
      (firmware : PreparedFirmware) → Keeps I (read_artifact env settings firmware)
  unfolding read_artifact
  read_artifact-Keeps firmware = search step_rules

  pub validate_prepared-Keeps :
      (firmware : PreparedFirmware) → Keeps I (validate_prepared env settings firmware)
  unfolding validate_prepared
  validate_prepared-Keeps firmware = search (step_rules, read_artifact-Keeps) depth 9

  probe_recovery-Keeps : Keeps I (probe_recovery env settings)
  unfolding probe_recovery
  probe_recovery-Keeps = search step_rules

  accept_target-Keeps :
      (found : DfuSelector × DfuTargetProbe) → Keeps I (accept_target env settings found)
  accept_target-Keeps (selector, target) = search step_rules

  pub bootloader_recovery_selector-Keeps :
      (selected_target : Bool) → Keeps I (bootloader_recovery_selector env settings selected_target)
  unfolding bootloader_recovery_selector
  bootloader_recovery_selector-Keeps selected_target =
      search (step_rules, probe_recovery-Keeps, accept_target-Keeps) depth 8

  pub selector_if_rcp_is_missing-Keeps :
      (selected_target : Bool) → Keeps I (selector_if_rcp_is_missing env settings selected_target)
  unfolding selector_if_rcp_is_missing
  selector_if_rcp_is_missing-Keeps selected_target =
      search (step_rules, bootloader_recovery_selector-Keeps)

  prepare_running-Keeps : (state : Text) → Keeps I (prepare_running env settings state)
  unfolding prepare_running
  prepare_running-Keeps state = search step_rules

  pub prepare_safe_update-Keeps : Stable I → Keeps I (prepare_safe_update env settings)
  unfolding prepare_safe_update
  prepare_safe_update-Keeps stable =
      search (step_rules, addon_state-Keeps env stable, prepare_running-Keeps)

  health_round-Keeps :
      (again : M W (Unit {0})) (deadline : ℕ)
      → Keeps I again
      → Keeps I (health_round env settings again deadline)
  unfolding health_round
  health_round-Keeps again deadline h = search step_rules depth 8

  health_loop-Keeps : (left deadline : ℕ) → Keeps I (health_loop env settings left deadline)
  unfolding health_loop
  health_loop-Keeps zero deadline = search step_rules
  health_loop-Keeps (suc left) deadline =
      health_round-Keeps _ deadline (health_loop-Keeps left deadline)

  pub require_otbr_healthy-Keeps : Keeps I (require_otbr_healthy env settings)
  unfolding require_otbr_healthy
  require_otbr_healthy-Keeps = search (step_rules, health_loop-Keeps)

module _ {W : Type 0} (env : Environment W) (settings : Settings) {I : List Event → Type 0}
    (owned : Owned I) where
  pub spinel_version-Keeps : Keeps I (spinel_version env settings)
  unfolding spinel_version
  spinel_version-Keeps = search (step_rules, Keeps-write, owned.reading)

  read_expected-Keeps :
      (firmware : PreparedFirmware) → Keeps I (read_expected env settings firmware)
  unfolding read_expected
  read_expected-Keeps firmware = search (step_rules, spinel_version-Keeps)

  poll_round-Keeps :
      (again : M W (Option NcpVersion)) (firmware : PreparedFirmware) (deadline : ℕ)
      → Keeps I again
      → Keeps I (poll_round env settings again firmware deadline)
  unfolding poll_round
  poll_round-Keeps again firmware deadline h = search (step_rules, read_expected-Keeps) depth 8

  poll_loop-Keeps :
      (left : ℕ) (firmware : PreparedFirmware) (deadline : ℕ)
      → Keeps I (poll_loop env settings left firmware deadline)
  unfolding poll_loop
  poll_loop-Keeps zero firmware deadline = search step_rules
  poll_loop-Keeps (suc left) firmware deadline =
      poll_round-Keeps _ firmware deadline (poll_loop-Keeps left firmware deadline)

  poll_release-Keeps : (firmware : PreparedFirmware) → Keeps I (poll_release env settings firmware)
  unfolding poll_release
  poll_release-Keeps firmware = search (step_rules, poll_loop-Keeps)

  or_update-Keeps : (found : Option NcpVersion) → Keeps I (or_update env settings found)
  or_update-Keeps none = Keeps-raise update
  or_update-Keeps (some version) = Keeps-pure version

  wait_without_selector-Keeps :
      (firmware : PreparedFirmware) → Keeps I (wait_without_selector env settings firmware)
  unfolding wait_without_selector
  wait_without_selector-Keeps firmware = search (step_rules, poll_release-Keeps, or_update-Keeps)

  reboot_target-Keeps :
      (firmware : PreparedFirmware) (progress : Option (Reporter W)) (target : Option DfuTarget)
      → Keeps I (reboot_target env settings firmware progress target)
  unfolding reboot_target
  reboot_target-Keeps firmware progress none = search step_rules
  reboot_target-Keeps firmware progress (some target) =
      search
        (
          step_rules,
          Keeps-write,
          owned.rebooting,
          settle-Keeps env settings,
          wait_without_selector-Keeps,
        )
        depth 9

  reboot_and_wait-Keeps :
      (firmware : PreparedFirmware) (progress : Option (Reporter W)) (selector : DfuSelector)
      → Keeps I (reboot_and_wait env settings firmware progress selector)
  unfolding reboot_and_wait
  reboot_and_wait-Keeps firmware progress selector = search (step_rules, reboot_target-Keeps)

  retry-Keeps :
      (firmware : PreparedFirmware) (progress : Option (Reporter W)) (selector : DfuSelector)
      (found : Option NcpVersion)
      → Keeps I (retry env settings firmware progress selector found)
  retry-Keeps firmware progress selector (some version) = Keeps-pure version
  retry-Keeps firmware progress selector none =
      search (step_rules, reboot_and_wait-Keeps, or_update-Keeps)

  pub wait_for_expected_release-Keeps :
      (firmware : PreparedFirmware) (progress : Option (Reporter W)) (selector : DfuSelector)
      → Keeps I (wait_for_expected_release env settings firmware progress selector)
  unfolding wait_for_expected_release
  wait_for_expected_release-Keeps firmware progress selector =
      search (step_rules, poll_release-Keeps, retry-Keeps)
