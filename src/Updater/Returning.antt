-- ===== src/Updater/Returning.antt =====
-- The steps of the transaction of updater.py come to an end.
use ha_nrf52840_ot_rcp_updat.Base.{ℕ, Bool, true, false, Option, none, some}
use ha_nrf52840_ot_rcp_updat.Base.Text.{Text}
use ha_nrf52840_ot_rcp_updat.Models.Firmware.{PreparedFirmware}
use ha_nrf52840_ot_rcp_updat.Models.Ncp.{NcpVersion}
use ha_nrf52840_ot_rcp_updat.Models.Settings.{Settings}
use ha_nrf52840_ot_rcp_updat.Dfu.Target.{DfuSelector, DfuTarget, DfuTargetProbe}
use ha_nrf52840_ot_rcp_updat.Effects.{update}
use ha_nrf52840_ot_rcp_updat.Effects.Timely.{
  IsTimely, IsTimely-pure, IsTimely-raise, IsTimely-call, IsTimely-catch, IsTimely-if,
  IsTimely-bind, IsTimely-write,
}
use ha_nrf52840_ot_rcp_updat.Environment.{Environment, ClockLaws, Forward}
use ha_nrf52840_ot_rcp_updat.Effects.{is_os_error, assertion, reboot}
use ha_nrf52840_ot_rcp_updat.Supervisor.Client.{otbr}
use ha_nrf52840_ot_rcp_updat.Supervisor.Waiting.{addon_state-IsTimely, sleep-IsTimely}
use ha_nrf52840_ot_rcp_updat.Updater.Ending.{
  IsTimely-on_class, IsTimely-lift, IsTimely-raise_if, poll_release-IsTimely,
}
use ha_nrf52840_ot_rcp_updat.Updater.Steps.{
  Reporter, is_dfu, report_progress, settle, read_artifact, validate_prepared, probe_recovery,
  accept_target, bootloader_recovery_selector, selector_if_rcp_is_missing, prepare_running,
  prepare_safe_update, or_update, wait_without_selector, reboot_target, reboot_and_wait, retry,
  wait_for_expected_release,
}

-- A reporter does not turn the clock back.
abbrev pub Reports : {W : Type 0} → (W → ℕ) → Option (Reporter W) → Type 0
Reports clock none = Unit {0}
Reports clock (some progress) =
    (percentage : Option ℕ) (stage : Text) → Forward clock (progress percentage stage)

module _ {W : Type 0} (env : Environment W) (laws : ClockLaws env) (settings : Settings)
    (progress : Option (Reporter W)) (reports : Reports env.monotonic progress) where
  pub report_progress-IsTimely :
      (percentage : Option ℕ) (stage : Text)
      → IsTimely env.monotonic (report_progress env settings progress percentage stage)
  unfolding report_progress
  report_progress-IsTimely = by_reporter progress reports
    where
      by_reporter :
          (progress : Option (Reporter W))
          → Reports env.monotonic progress
          → (percentage : Option ℕ) (stage : Text)
          → IsTimely env.monotonic (report_progress env settings progress percentage stage)
      by_reporter none r percentage stage = IsTimely-pure tt
      by_reporter (some progress) r percentage stage =
          IsTimely-catch _ _ (IsTimely-call _ (r percentage stage)) (λ _ _. IsTimely-pure tt)

  pub settle-IsTimely :
      (personality : Text) → IsTimely env.monotonic (settle env settings progress personality)
  unfolding settle
  settle-IsTimely personality =
      IsTimely-if _ _ _ (IsTimely-pure tt)
        (IsTimely-bind _ _ (report_progress-IsTimely none _) (λ _. sleep-IsTimely env laws 8000))

  pub validate_prepared-IsTimely :
      (firmware : PreparedFirmware)
      → IsTimely env.monotonic (validate_prepared env settings firmware)
  unfolding validate_prepared read_artifact
  validate_prepared-IsTimely firmware = IsTimely-bind _ _ (IsTimely-raise_if _ update) (λ _.
      IsTimely-bind _ _
        (IsTimely-catch _ _
          (IsTimely-bind _ _ (IsTimely-call _ (laws.size_of firmware.path)) (λ size.
            IsTimely-bind _ _ (IsTimely-raise_if _ update)
              (λ _. IsTimely-call _ (laws.read_bytes firmware.path))))
          (λ failure ne. IsTimely-on_class is_os_error _ failure ne (IsTimely-raise update)))
        (λ bytes.
          IsTimely-bind _ _ (IsTimely-raise_if _ update)
            (λ _. IsTimely-bind _ _ (IsTimely-lift _) (λ _. IsTimely-raise_if _ update))))

  accept_target-IsTimely :
      (found : DfuSelector × DfuTargetProbe)
      → IsTimely env.monotonic (accept_target env settings found)
  accept_target-IsTimely (selector, target) =
      IsTimely-bind _ _ (IsTimely-raise_if _ update)
        (λ _. IsTimely-bind _ _ (IsTimely-raise_if _ update) (λ _. IsTimely-pure selector))

  pub bootloader_recovery_selector-IsTimely :
      (selected_target : Bool)
      → IsTimely env.monotonic (bootloader_recovery_selector env settings selected_target)
  unfolding bootloader_recovery_selector probe_recovery
  bootloader_recovery_selector-IsTimely selected_target =
      IsTimely-bind _ _ (IsTimely-raise_if _ update) (λ _.
        IsTimely-bind _ _
          (IsTimely-catch _ _
            (IsTimely-bind _ _ (IsTimely-call _ (laws.bootloader_selector _ _)) (λ selector.
              IsTimely-bind _ _ (IsTimely-call _ (laws.probe_dfu_target selector))
                (λ target. IsTimely-pure (selector, target))))
            (λ failure ne. IsTimely-on_class is_dfu _ failure ne (IsTimely-raise update)))
          accept_target-IsTimely)

  pub selector_if_rcp_is_missing-IsTimely :
      (selected_target : Bool)
      → IsTimely env.monotonic (selector_if_rcp_is_missing env settings selected_target)
  unfolding selector_if_rcp_is_missing
  selector_if_rcp_is_missing-IsTimely selected_target =
      IsTimely-bind _ _ (IsTimely-call _ (laws.exists settings.device)) (λ present.
        IsTimely-if present _ _ (IsTimely-pure none) (
          IsTimely-bind _ _ (bootloader_recovery_selector-IsTimely selected_target)
            (λ selector. IsTimely-pure (some selector))))

  pub prepare_safe_update-IsTimely : IsTimely env.monotonic (prepare_safe_update env settings)
  unfolding prepare_safe_update prepare_running
  prepare_safe_update-IsTimely = IsTimely-if _ _ _ (IsTimely-pure false) (
      IsTimely-bind _ _ (addon_state-IsTimely env laws otbr) (λ state.
        IsTimely-if _ _ _ (IsTimely-pure false) (
          IsTimely-bind _ _ (IsTimely-raise_if _ update) (λ _.
            IsTimely-bind _ _ (IsTimely-call _ (laws.require_quiet_management_window _))
              (λ _. IsTimely-pure true)))))

  or_update-IsTimely :
      (found : Option NcpVersion) → IsTimely env.monotonic (or_update env settings found)
  or_update-IsTimely none = IsTimely-raise update
  or_update-IsTimely (some version) = IsTimely-pure version

  reboot_target-IsTimely :
      (firmware : PreparedFirmware) (target : Option DfuTarget)
      → IsTimely env.monotonic (reboot_target env settings firmware progress target)
  unfolding reboot_target wait_without_selector
  reboot_target-IsTimely firmware none = IsTimely-raise assertion
  reboot_target-IsTimely firmware (some target) = IsTimely-bind _ _ (IsTimely-write reboot) (λ _.
      IsTimely-bind _ _ (IsTimely-call _ (laws.reboot_application target)) (λ _.
        IsTimely-bind _ _ (settle-IsTimely _) (λ _.
          IsTimely-bind _ _
            (IsTimely-bind _ _ (poll_release-IsTimely env laws settings firmware)
              or_update-IsTimely)
            (λ version. IsTimely-pure (some version)))))

  pub wait_for_expected_release-IsTimely :
      (firmware : PreparedFirmware) (selector : DfuSelector)
      → IsTimely env.monotonic (wait_for_expected_release env settings firmware progress selector)
  unfolding wait_for_expected_release reboot_and_wait
  wait_for_expected_release-IsTimely firmware selector =
      IsTimely-bind _ _ (poll_release-IsTimely env laws settings firmware) by_found
    where
      by_found :
          (found : Option NcpVersion)
          → IsTimely env.monotonic (retry env settings firmware progress selector found)
      by_found (some version) = IsTimely-pure version
      by_found none =
          IsTimely-bind _ _
            (IsTimely-catch _ _
              (IsTimely-bind _ _ (IsTimely-call _ (laws.probe_dfu_target selector)) (λ probe.
                IsTimely-if probe.present _ _ (reboot_target-IsTimely firmware probe.target)
                  (IsTimely-pure none)))
              (λ failure ne. IsTimely-on_class is_dfu _ failure ne (IsTimely-raise update)))
            or_update-IsTimely
