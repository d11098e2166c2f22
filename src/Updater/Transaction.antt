-- ===== src/Updater/Transaction.antt =====
-- `install_prepared` and `current_version` of updater.py.
use ha_nrf52840_ot_rcp_updat.Base.{
  ℕ, List, length, map_err, Bool, true, false, not, ◌&&◌, Option, none, some, Result, ok, err,
  if◌then◌else◌,
}
use ha_nrf52840_ot_rcp_updat.Base.Text.{Text, codes}
use ha_nrf52840_ot_rcp_updat.Models.Value.{text, obj, Fields}
use ha_nrf52840_ot_rcp_updat.Models.Firmware.{FirmwareRelease, PreparedFirmware}
use ha_nrf52840_ot_rcp_updat.Models.Checks.{check_prepared}
use ha_nrf52840_ot_rcp_updat.Models.Ncp.{NcpVersion}
use ha_nrf52840_ot_rcp_updat.Models.Settings.{Settings}
use ha_nrf52840_ot_rcp_updat.Dfu.Target.{DfuSelector}
use ha_nrf52840_ot_rcp_updat.Effects.{
  is_os_error, validation, update, rescan_deferred, supervisor, preflight, assertion, Failure,
  raised, lock, unlock, reset, flash, save, St, M, pure, fail, raise, catch, call, gets, write,
  on_class, raise_if, lift, ◌>>=◌, ◌>>◌,
}
use ha_nrf52840_ot_rcp_updat.Environment.{Environment}
use ha_nrf52840_ot_rcp_updat.Supervisor.Client.{otbr, temporarily_stop}
use ha_nrf52840_ot_rcp_updat.Updater.Checks.{
  validate_release, validate_current_ncp, matches_package, version_fields, set_field,
}
use ha_nrf52840_ot_rcp_updat.Updater.Steps.{
  Reporter, is_update, is_dfu, is_dfu_transfer, is_spinel, report_progress, settle, spinel_version,
  validate_prepared, bootloader_recovery_selector, selector_if_rcp_is_missing, prepare_safe_update,
  wait_for_expected_release, require_otbr_healthy,
}

abbrev pub differ : Bool → Bool → Bool
differ true b = not b
differ false b = b

module _ {W : Type 0} (env : Environment W) where
  -- The `finally` of `update_lock`.
  abbrev pub released : {A : Type 0} → Result Failure A × St W → Result Failure A × St W
  released (ok value, s) = (do write unlock; call env.release_lock; pure value) s
  released {A} (err failure, s) = (do write unlock; call env.release_lock; fail {A = A} failure) s

  unfoldable pub holding : {A : Type 0} → M W A → M W A
  holding body s = released (body s)

  -- `with update_lock(directory): body`
  unfoldable pub with_lock : {A : Type 0} → M W A → M W A
  with_lock body = do call env.acquire_lock; write lock; holding body

module _ {W : Type 0} (env : Environment W) (settings : Settings) (progress : Option (Reporter W))
    (firmware : PreparedFirmware) (selected_target : Bool) where
  -- What is known of the radio before: its version, or the bootloader that it is in.
  unfoldable pub ask_radio : M W (Option NcpVersion × Option DfuSelector)
  ask_radio =
      catch (do version ← spinel_version env settings; pure (some version, none))
        (on_class is_spinel (do
          selector ← bootloader_recovery_selector env settings selected_target
          pure (none, some selector)))

  unfoldable pub find_radio : Option DfuSelector → M W (Option NcpVersion × Option DfuSelector)
  find_radio none = ask_radio
  find_radio (some selector) = pure (none, some selector)

  abbrev pub or_assert : Option DfuSelector → M W DfuSelector
  or_assert none = raise assertion
  or_assert (some selector) = pure selector

  -- The bootloader to flash: the one that was found, or that of the running radio, reset into it.
  unfoldable pub enter_bootloader : Option NcpVersion → Option DfuSelector → M W DfuSelector
  enter_bootloader none found = do
    selector ← or_assert found
    report_progress env settings progress none (codes "Using detected Secure DFU")
    pure selector
  enter_bootloader (some before) found = do
    selector ←
        catch (call (env.selector_for_device settings.device settings.dfu_serial_number))
          (on_class is_dfu (raise update))
    report_progress env settings progress none (codes "Entering Secure DFU")
    write reset
    call env.reset_bootloader
    settle env settings progress (codes "Secure DFU")
    pure selector

  -- Whether the transfer ended without an error.
  unfoldable pub transfer : DfuSelector → M W Bool
  transfer selector =
      catch
        (do
          write (flash selector)
          call (env.flash firmware.path selector firmware.dfu_application_version)
          pure true)
        (on_class is_dfu_transfer (pure false))

  unfoldable pub verify_radio : DfuSelector → Bool → M W NcpVersion
  verify_radio selector transferred = do
    settle env settings progress (codes "RCP")
    report_progress env settings progress none (codes "Verifying RCP firmware")
    if transferred
        then wait_for_expected_release env settings firmware progress selector
        else catch (wait_for_expected_release env settings firmware progress selector)
            (on_class is_update (raise update))

  unfoldable pub flash_radio : Option NcpVersion → Option DfuSelector → M W NcpVersion
  flash_radio before found = do
    selector ← enter_bootloader before found
    report_progress env settings progress none (codes "Flashing firmware")
    transferred ← transfer selector
    verify_radio selector transferred

  unfoldable pub update_radio : Option NcpVersion × Option DfuSelector → M W NcpVersion
  update_radio (none, found) = flash_radio none found
  update_radio (some before, found) = do
    lift (validate_current_ncp settings before firmware selected_target)
    if matches_package before firmware
        then (do
          report_progress env settings progress none (codes "Firmware already matches target")
          pure before)
        else flash_radio (some before) found

  -- The body of `temporarily_stop`.
  unfoldable pub replace_firmware : Option DfuSelector → Bool → Bool → M W NcpVersion
  replace_firmware preselected otbr_was_running was_running = do
    raise_if (settings.safe_update && differ was_running otbr_was_running) update
    radio ← find_radio preselected
    update_radio radio

  unfoldable pub await_otbr : Bool → M W (Unit {0})
  await_otbr otbr_was_running =
      if settings.safe_update && otbr_was_running
      then (do
        report_progress env settings progress none (codes "Waiting for OTBR")
        require_otbr_healthy env settings)
      else pure tt

  -- What `state.update` makes of the stored fields.
  abbrev pub verified_state : NcpVersion → Text → Fields → Fields
  verified_state after now state =
      set_field (codes "verified_at") (text now)
        (set_field (codes "installed") (obj (version_fields after)) state)

  unfoldable pub store_version : NcpVersion → M W (Unit {0})
  store_version after = do
    state ← call env.load
    now ← gets env.utc_now
    write (save (verified_state after now state))
    call (env.save (verified_state after now state))

  -- The body of `update_lock`.
  unfoldable pub locked_update : M W NcpVersion
  locked_update = do
    preselected ← selector_if_rcp_is_missing env settings selected_target
    report_progress env settings progress none (codes "Preparing OTBR and RCP")
    otbr_was_running ← prepare_safe_update env settings
    after ← temporarily_stop env otbr (replace_firmware preselected otbr_was_running)
    await_otbr otbr_was_running
    store_version after
    report_progress env settings progress (some 100) (codes "Update verified")
    pure after

  unfoldable pub install_prepared : Bool → M W NcpVersion
  install_prepared report_validation = do
    if report_validation
        then report_progress env settings progress none (codes "Validating firmware")
        else pure tt
    validate_prepared env settings firmware
    with_lock env locked_update

module _ {W : Type 0} (env : Environment W) (settings : Settings) where
  abbrev pub deferred : Failure → M W NcpVersion
  deferred (raised preflight noted) = raise rescan_deferred
  deferred (raised supervisor noted) = raise rescan_deferred
  deferred (raised update noted) = raise rescan_deferred
  deferred failure = fail failure

  unfoldable pub read_stopped : Bool → Bool → M W NcpVersion
  read_stopped otbr_was_running was_running = do
    raise_if (settings.safe_update && differ was_running otbr_was_running) rescan_deferred
    spinel_version env settings

  -- The `try` of `current_version`.
  unfoldable pub rescan : M W NcpVersion
  rescan = do
    otbr_was_running ← prepare_safe_update env settings
    temporarily_stop env otbr (read_stopped otbr_was_running)

  unfoldable pub current_version : M W NcpVersion
  current_version = with_lock env (catch rescan deferred)

  -- What `prepare_release` makes of the downloaded bytes.
  abbrev pub prepared_release : FirmwareRelease → Text → List ℕ → PreparedFirmware
  prepared_release release path bytes = record {
    path = path;
    hardware = release.hardware;
    ncs_version = release.ncs_version;
    zephyr_version = release.zephyr_version;
    dfu_application_version = release.dfu_application_version;
    sha256 = env.sha256_hex bytes;
    size = length bytes;
    source = codes "release";
    release = some release;
  }

  unfoldable pub prepare_release : FirmwareRelease → M W PreparedFirmware
  prepare_release release = do
    lift (validate_release release)
    path ← call (env.download_artifact release)
    bytes ← catch (call (env.read_bytes path)) (on_class is_os_error (raise update))
    lift (map_err (λ _. validation) (check_prepared (prepared_release release path bytes)))
    pure (prepared_release release path bytes)

  unfoldable pub install : FirmwareRelease → Bool → Option (Reporter W) → M W NcpVersion
  install release selected_target progress = do
    report_progress env settings progress none (codes "Validating release")
    lift (validate_release release)
    report_progress env settings progress none (codes "Downloading firmware")
    firmware ← prepare_release release
    install_prepared env settings progress firmware selected_target false
