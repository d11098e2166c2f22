-- ===== src/Updater/Termination.antt =====
-- The transaction of updater.py comes to an end.
use ha_nrf52840_ot_rcp_updat.Base.{ℕ, Bool, true, false, Option, none, some, Result, ok, err}
use ha_nrf52840_ot_rcp_updat.Base.Text.{Text}
use ha_nrf52840_ot_rcp_updat.Models.Firmware.{PreparedFirmware}
use ha_nrf52840_ot_rcp_updat.Models.Ncp.{NcpVersion}
use ha_nrf52840_ot_rcp_updat.Models.Settings.{Settings}
use ha_nrf52840_ot_rcp_updat.Dfu.Target.{DfuSelector}
use ha_nrf52840_ot_rcp_updat.Effects.{update, Failure, St, M, pure, fail, call, write, ◌>>◌}
use ha_nrf52840_ot_rcp_updat.Effects.Hoare.{returns, raises}
use ha_nrf52840_ot_rcp_updat.Effects.Timely.{
  IsTimely, IsTimely-pure, IsTimely-raise, IsTimely-fail, IsTimely-call, IsTimely-catch,
  IsTimely-if, IsTimely-bind, IsTimely-write, IsTimely-gets,
}
use ha_nrf52840_ot_rcp_updat.Environment.{Environment, ClockLaws}
use ha_nrf52840_ot_rcp_updat.Effects.{assertion, reset, flash, lock, unlock}
use ha_nrf52840_ot_rcp_updat.Effects.Timely.{EndsTimely}
use ha_nrf52840_ot_rcp_updat.Supervisor.Client.{otbr}
use ha_nrf52840_ot_rcp_updat.Supervisor.Waiting.{temporarily_stop-IsTimely}
use ha_nrf52840_ot_rcp_updat.Updater.Ending.{
  IsTimely-on_class, IsTimely-lift, IsTimely-raise_if, spinel_version-IsTimely,
  require_otbr_healthy-IsTimely,
}
use ha_nrf52840_ot_rcp_updat.Updater.Steps.{
  Reporter, is_update, is_dfu, is_dfu_transfer, is_spinel, report_progress,
}
use ha_nrf52840_ot_rcp_updat.Updater.Checks.{matches_package}
use ha_nrf52840_ot_rcp_updat.Updater.Transaction.{
  released, holding, with_lock, ask_radio, find_radio, or_assert, enter_bootloader, transfer,
  verify_radio, flash_radio, update_radio, replace_firmware, await_otbr, store_version,
  locked_update, install_prepared,
}
use ha_nrf52840_ot_rcp_updat.Updater.Returning.{
  Reports, report_progress-IsTimely, settle-IsTimely, validate_prepared-IsTimely,
  bootloader_recovery_selector-IsTimely, selector_if_rcp_is_missing-IsTimely,
  prepare_safe_update-IsTimely, wait_for_expected_release-IsTimely,
}

module _ {W : Type 0} (env : Environment W) (laws : ClockLaws env) where
  leave :
      {A : Type 0} (m : M W A)
      → IsTimely env.monotonic m
      → IsTimely env.monotonic (do write unlock; call env.release_lock; m)
  leave m h =
      IsTimely-bind _ _ (IsTimely-write unlock)
        (λ _. IsTimely-bind _ _ (IsTimely-call _ laws.release_lock) (λ _. h))

module _ {W A : Type 0} (env : Environment W) (laws : ClockLaws env) where
  released_timely :
      (now : ℕ) (r : Result Failure A × St W)
      → EndsTimely env.monotonic now r
      → EndsTimely env.monotonic now (released env r)
  released_timely now (ok value, s) (returns p) =
      (leave env laws (pure value) (IsTimely-pure value)).at now s p
  released_timely now (err failure, s) (raises (ne, p)) =
      (leave env laws (fail failure) (IsTimely-fail failure ne)).at now s p

  with_lock-IsTimely :
      (body : M W A) → IsTimely env.monotonic body → IsTimely env.monotonic (with_lock env body)
  unfolding with_lock holding
  with_lock-IsTimely body h = IsTimely-bind _ _ (IsTimely-call _ laws.acquire_lock) (λ _.
      IsTimely-bind _ _ (IsTimely-write lock)
        (λ _. record { at = λ now s p. released_timely now _ (h.at now s p) }))

module _ {W : Type 0} (env : Environment W) (laws : ClockLaws env) (settings : Settings)
    (progress : Option (Reporter W)) (reports : Reports env.monotonic progress)
    (firmware : PreparedFirmware) (selected_target : Bool) where
  find_radio-IsTimely :
      (preselected : Option DfuSelector)
      → IsTimely env.monotonic
          (find_radio env settings progress firmware selected_target preselected)
  unfolding find_radio ask_radio
  find_radio-IsTimely none =
      IsTimely-catch _ _
        (IsTimely-bind _ _ (spinel_version-IsTimely env laws settings)
          (λ version. IsTimely-pure (some version, none)))
        (λ failure ne. IsTimely-on_class is_spinel _ failure ne (
          IsTimely-bind _ _
            (bootloader_recovery_selector-IsTimely env laws settings progress reports
              selected_target)
            (λ selector. IsTimely-pure (none, some selector))))
  find_radio-IsTimely (some selector) = IsTimely-pure (none, some selector)

  or_assert-IsTimely :
      (found : Option DfuSelector)
      → IsTimely env.monotonic (or_assert env settings progress firmware selected_target found)
  or_assert-IsTimely none = IsTimely-raise assertion
  or_assert-IsTimely (some selector) = IsTimely-pure selector

  reports-IsTimely :
      (percentage : Option ℕ) (stage : Text)
      → IsTimely env.monotonic (report_progress env settings progress percentage stage)
  reports-IsTimely = report_progress-IsTimely env laws settings progress reports

  enter_bootloader-IsTimely :
      (before : Option NcpVersion) (found : Option DfuSelector)
      → IsTimely env.monotonic
          (enter_bootloader env settings progress firmware selected_target before found)
  unfolding enter_bootloader
  enter_bootloader-IsTimely none found =
      IsTimely-bind _ _ (or_assert-IsTimely found)
        (λ selector. IsTimely-bind _ _ (reports-IsTimely none _) (λ _. IsTimely-pure selector))
  enter_bootloader-IsTimely (some before) found =
      IsTimely-bind _ _
        (IsTimely-catch _ _ (IsTimely-call _ (laws.selector_for_device _ _))
          (λ failure ne. IsTimely-on_class is_dfu _ failure ne (IsTimely-raise update)))
        (λ selector. IsTimely-bind _ _ (reports-IsTimely none _) (λ _.
          IsTimely-bind _ _ (IsTimely-write reset) (λ _.
            IsTimely-bind _ _ (IsTimely-call _ laws.reset_bootloader) (λ _.
              IsTimely-bind _ _ (settle-IsTimely env laws settings progress reports _)
                (λ _. IsTimely-pure selector)))))

  transfer-IsTimely :
      (selector : DfuSelector)
      → IsTimely env.monotonic (transfer env settings progress firmware selected_target selector)
  unfolding transfer
  transfer-IsTimely selector =
      IsTimely-catch _ _
        (IsTimely-bind _ _ (IsTimely-write (flash selector)) (λ _.
          IsTimely-bind _ _ (IsTimely-call _ (laws.flash _ selector _)) (λ _. IsTimely-pure true)))
        (λ failure ne. IsTimely-on_class is_dfu_transfer _ failure ne (IsTimely-pure false))

  verify_radio-IsTimely :
      (selector : DfuSelector) (transferred : Bool)
      → IsTimely env.monotonic
          (verify_radio env settings progress firmware selected_target selector transferred)
  unfolding verify_radio
  verify_radio-IsTimely selector transferred =
      let waited =
        wait_for_expected_release-IsTimely env laws settings progress reports firmware selector in
      IsTimely-bind _ _ (settle-IsTimely env laws settings progress reports _) (λ _.
        IsTimely-bind _ _ (reports-IsTimely none _) (λ _. IsTimely-if transferred _ _ waited (
          IsTimely-catch _ _ waited
            (λ failure ne. IsTimely-on_class is_update _ failure ne (IsTimely-raise update)))))

  flash_radio-IsTimely :
      (before : Option NcpVersion) (found : Option DfuSelector)
      → IsTimely env.monotonic
          (flash_radio env settings progress firmware selected_target before found)
  unfolding flash_radio
  flash_radio-IsTimely before found =
      IsTimely-bind _ _ (enter_bootloader-IsTimely before found) (λ selector.
        IsTimely-bind _ _ (reports-IsTimely none _)
          (λ _. IsTimely-bind _ _ (transfer-IsTimely selector) (verify_radio-IsTimely selector)))

  update_radio-IsTimely :
      (radio : Option NcpVersion × Option DfuSelector)
      → IsTimely env.monotonic (update_radio env settings progress firmware selected_target radio)
  unfolding update_radio
  update_radio-IsTimely (none, found) = flash_radio-IsTimely none found
  update_radio-IsTimely (some before, found) = IsTimely-bind _ _ (IsTimely-lift _) (λ _.
      IsTimely-if (matches_package before firmware) _ _
        (IsTimely-bind _ _ (reports-IsTimely none _) (λ _. IsTimely-pure before))
        (flash_radio-IsTimely (some before) found))

  replace_firmware-IsTimely :
      (preselected : Option DfuSelector) (otbr_was_running was_running : Bool)
      → IsTimely env.monotonic (
          replace_firmware env settings progress firmware selected_target preselected
            otbr_was_running was_running)
  unfolding replace_firmware
  replace_firmware-IsTimely preselected otbr_was_running was_running =
      IsTimely-bind _ _ (IsTimely-raise_if _ update)
        (λ _. IsTimely-bind _ _ (find_radio-IsTimely preselected) update_radio-IsTimely)

  await_otbr-IsTimely :
      (otbr_was_running : Bool)
      → IsTimely env.monotonic
          (await_otbr env settings progress firmware selected_target otbr_was_running)
  unfolding await_otbr
  await_otbr-IsTimely otbr_was_running =
      IsTimely-if _ _ _
        (IsTimely-bind _ _ (reports-IsTimely none _)
          (λ _. require_otbr_healthy-IsTimely env laws settings))
        (IsTimely-pure tt)

  store_version-IsTimely :
      (after : NcpVersion)
      → IsTimely env.monotonic (store_version env settings progress firmware selected_target after)
  unfolding store_version
  store_version-IsTimely after = IsTimely-bind _ _ (IsTimely-call _ laws.load) (λ state.
      IsTimely-bind _ _ (IsTimely-gets env.utc_now)
        (λ now. IsTimely-bind _ _ (IsTimely-write _) (λ _. IsTimely-call _ (laws.save _))))

  locked_update-IsTimely :
      IsTimely env.monotonic (locked_update env settings progress firmware selected_target)
  unfolding locked_update
  locked_update-IsTimely =
      IsTimely-bind _ _
        (selector_if_rcp_is_missing-IsTimely env laws settings progress reports selected_target)
        (λ preselected. IsTimely-bind _ _ (reports-IsTimely none _) (λ _.
          IsTimely-bind _ _ (prepare_safe_update-IsTimely env laws settings progress reports)
            (λ otbr_was_running.
              IsTimely-bind _ _
                (temporarily_stop-IsTimely env laws otbr _
                  (replace_firmware-IsTimely preselected otbr_was_running))
                (λ after. IsTimely-bind _ _ (await_otbr-IsTimely otbr_was_running) (λ _.
                  IsTimely-bind _ _ (store_version-IsTimely after) (λ _.
                    IsTimely-bind _ _ (reports-IsTimely (some 100) _)
                      (λ _. IsTimely-pure after)))))))

  -- An installation comes to an end, whatever the world answers: it returns or raises with no
  -- wait out of rounds and the clock not turned back, on any clock that runs on while the program
  -- sleeps and that neither the calls of the world nor the reporter turn back.
  pub install_prepared-IsTimely :
      (report_validation : Bool)
      → IsTimely env.monotonic
          (install_prepared env settings progress firmware selected_target report_validation)
  unfolding install_prepared
  install_prepared-IsTimely report_validation =
      IsTimely-bind _ _
        (IsTimely-if report_validation _ _ (reports-IsTimely none _) (IsTimely-pure tt))
        (λ _.
          IsTimely-bind _ _ (validate_prepared-IsTimely env laws settings progress reports firmware)
            (λ _. with_lock-IsTimely env laws _ locked_update-IsTimely))
