-- ===== src/Updater/Steps.antt =====
-- The parts of the transaction of updater.py that touch the world.
use ha_nrf52840_ot_rcp_updat.Base.{
  ℕ, zero, suc, ◌+◌, ◌*◌, Bool, true, false, not, ◌||◌, List, ◌++◌, Option, none, some, Result, ok,
  err, ltb, if◌then◌else◌,
}
use ha_nrf52840_ot_rcp_updat.Base.Text.{Text, codes, text_eq, text_in}
use ha_nrf52840_ot_rcp_updat.Models.Firmware.{PreparedFirmware}
use ha_nrf52840_ot_rcp_updat.Models.Ncp.{NcpVersion}
use ha_nrf52840_ot_rcp_updat.Models.Settings.{Settings}
use ha_nrf52840_ot_rcp_updat.Dfu.Target.{DfuSelector, DfuTarget, DfuTargetProbe}
use ha_nrf52840_ot_rcp_updat.Manifest.Elf.{ManifestError, struct_error, validate_rcp_elf}
use ha_nrf52840_ot_rcp_updat.Effects.{
  is_os_error, rounds, Class, update, rescan_deferred, dfu, dfu_transfer, spinel, preflight,
  assertion, other, out_of_rounds, read_version, reboot, Call, M, pure, fail, raise, catch, call,
  gets, write, change, on_class, raise_if, lift, ◌>>=◌, ◌>>◌,
}
use ha_nrf52840_ot_rcp_updat.Environment.{Environment}
use ha_nrf52840_ot_rcp_updat.Supervisor.Client.{running_states, stopped_states, otbr, addon_state}
use ha_nrf52840_ot_rcp_updat.Updater.Checks.{
  supported_hardware, metadata_agrees, size_changed, verify_package,
}

-- `ProgressReporter`: it may raise.
abbrev pub Reporter : Type 0 → Type 0
Reporter W = Option ℕ → Text → Call W (Unit {0})

abbrev pub is_update : Class → Bool
is_update update = true
is_update rescan_deferred = true
is_update class = false

-- `DfuTransferError` is a `DfuError`.
abbrev pub is_dfu : Class → Bool
is_dfu dfu = true
is_dfu dfu_transfer = true
is_dfu class = false

abbrev pub is_dfu_transfer : Class → Bool
is_dfu_transfer dfu_transfer = true
is_dfu_transfer class = false

abbrev pub is_spinel : Class → Bool
is_spinel spinel = true
is_spinel class = false

abbrev pub is_preflight : Class → Bool
is_preflight preflight = true
is_preflight class = false

abbrev pub spinel_or_update : Class → Bool
spinel_or_update class = is_spinel class || is_update class

-- `except ManifestError`; `struct.error` is another class.
unfoldable pub elf_checked : Result ManifestError (Unit {0}) → Result Class (Unit {0})
elf_checked (ok done) = ok done
elf_checked (err struct_error) = err other
elf_checked (err problem) = err update

module _ {W : Type 0} (env : Environment W) (settings : Settings) where
  -- `_report_progress`
  unfoldable pub report_progress : Option (Reporter W) → Option ℕ → Text → M W (Unit {0})
  report_progress none percentage stage = pure tt
  report_progress (some progress) percentage stage =
      catch (call (progress percentage stage)) (λ failure. pure tt)

  -- `_settle_qemu_usb_reenumeration`
  unfoldable pub settle : Option (Reporter W) → Text → M W (Unit {0})
  settle progress personality =
      if not settings.qemu_usb_reenumeration_workaround then pure tt else (do
        report_progress progress none
            (codes "Waiting for " ++ (personality ++ codes " USB re-enumeration"))
        change (env.sleep 8000))

  -- `self._spinel().get_ncp_version()`
  unfoldable pub spinel_version : M W NcpVersion
  spinel_version = do write read_version; call env.get_ncp_version

  -- The `try` of `_validate_prepared`.
  unfoldable pub read_artifact : PreparedFirmware → M W (List ℕ)
  read_artifact firmware = do
    size ← call (env.size_of firmware.path)
    raise_if (size_changed firmware size) update
    call (env.read_bytes firmware.path)

  -- `_validate_prepared`
  unfoldable pub validate_prepared : PreparedFirmware → M W (Unit {0})
  validate_prepared firmware = do
    raise_if (not (text_eq firmware.hardware supported_hardware)) update
    bytes ← catch (read_artifact firmware) (on_class is_os_error (raise update))
    raise_if (not (text_eq (env.sha256_hex bytes) firmware.sha256)) update
    lift (elf_checked (validate_rcp_elf bytes))
    raise_if (not (metadata_agrees firmware)) update

  -- The `try` of `_bootloader_recovery_selector`.
  unfoldable pub probe_recovery : M W (DfuSelector × DfuTargetProbe)
  probe_recovery = do
    selector ← call (env.bootloader_selector settings.dfu_serial_number settings.dfu_usb_path)
    target ← call (env.probe_dfu_target selector)
    pure (selector, target)

  abbrev pub accept_target : DfuSelector × DfuTargetProbe → M W DfuSelector
  accept_target (selector, target) = do
    raise_if (not target.present) update
    raise_if (not target.ready) update
    pure selector

  -- `_bootloader_recovery_selector`
  unfoldable pub bootloader_recovery_selector : Bool → M W DfuSelector
  bootloader_recovery_selector selected_target = do
    raise_if (not (settings.allow_legacy_rcp || selected_target)) update
    found ← catch probe_recovery (on_class is_dfu (raise update))
    accept_target found

  -- `_bootloader_selector_if_rcp_is_missing`
  unfoldable pub selector_if_rcp_is_missing : Bool → M W (Option DfuSelector)
  selector_if_rcp_is_missing selected_target = do
    present ← call (env.exists settings.device)
    if present
        then pure none
        else (do selector ← bootloader_recovery_selector selected_target; pure (some selector))

  -- `_prepare_safe_update`
  unfoldable pub prepare_running : Text → M W Bool
  prepare_running state = if text_in state stopped_states then pure false else (do
    raise_if (not (text_in state running_states)) update
    call (env.require_quiet_management_window settings.idle_window)
    pure true)

  unfoldable pub prepare_safe_update : M W Bool
  prepare_safe_update =
      if not settings.safe_update
      then pure false
      else (do state ← addon_state env otbr; prepare_running state)

  -- The `try` in the loop of `_wait_for_expected_release`.
  unfoldable pub read_expected : PreparedFirmware → M W (Option NcpVersion)
  read_expected firmware = do
    version ← spinel_version
    lift (verify_package version firmware)
    pure (some version)

  -- A round of that loop; `again` is the rounds that follow. It ends with nothing at the deadline.
  unfoldable pub poll_round :
      M W (Option NcpVersion) → PreparedFirmware → ℕ → M W (Option NcpVersion)
  poll_round again firmware deadline = do
    now ← gets env.monotonic
    if ltb now deadline
        then catch (read_expected firmware)
            (on_class spinel_or_update (do change (env.sleep 1000); again))
        else pure none

  unfoldable pub poll_loop : ℕ → PreparedFirmware → ℕ → M W (Option NcpVersion)
  poll_loop zero firmware deadline = fail out_of_rounds
  poll_loop (suc left) firmware deadline =
      poll_round (poll_loop left firmware deadline) firmware deadline

  abbrev pub post_dfu_timeout : ℕ
  post_dfu_timeout = 1000 * (if ltb settings.boot_timeout 90 then 90 else settings.boot_timeout)

  unfoldable pub poll_release : PreparedFirmware → M W (Option NcpVersion)
  poll_release firmware = do
    now ← gets env.monotonic
    poll_loop (rounds post_dfu_timeout 1000) firmware (now + post_dfu_timeout)

  abbrev pub or_update : Option NcpVersion → M W NcpVersion
  or_update none = raise update
  or_update (some version) = pure version

  -- `_wait_for_expected_release` without a selector, as its own retry calls it.
  unfoldable pub wait_without_selector : PreparedFirmware → M W NcpVersion
  wait_without_selector firmware = do found ← poll_release firmware; or_update found

  unfoldable pub reboot_target :
      PreparedFirmware → Option (Reporter W) → Option DfuTarget → M W (Option NcpVersion)
  reboot_target firmware progress none = raise assertion
  reboot_target firmware progress (some target) = do
    write reboot
    call (env.reboot_application target)
    settle progress (codes "RCP")
    version ← wait_without_selector firmware
    pure (some version)

  -- The last attempt of `_wait_for_expected_release`, in its `try`.
  unfoldable pub reboot_and_wait :
      PreparedFirmware → Option (Reporter W) → DfuSelector → M W (Option NcpVersion)
  reboot_and_wait firmware progress selector = do
    probe ← call (env.probe_dfu_target selector)
    if probe.present then reboot_target firmware progress probe.target else pure none

  abbrev pub retry :
      PreparedFirmware → Option (Reporter W) → DfuSelector → Option NcpVersion → M W NcpVersion
  retry firmware progress selector (some version) = pure version
  retry firmware progress selector none = do
    found ← catch (reboot_and_wait firmware progress selector) (on_class is_dfu (raise update))
    or_update found

  -- `_wait_for_expected_release` with a selector
  unfoldable pub wait_for_expected_release :
      PreparedFirmware → Option (Reporter W) → DfuSelector → M W NcpVersion
  wait_for_expected_release firmware progress selector = do
    found ← poll_release firmware
    retry firmware progress selector found

  -- `_require_otbr_healthy`
  unfoldable pub health_round : M W (Unit {0}) → ℕ → M W (Unit {0})
  health_round again deadline = do
    now ← gets env.monotonic
    if ltb now deadline
        then catch (call env.require_healthy)
            (on_class is_preflight (do change (env.sleep 1000); again))
        else raise update

  unfoldable pub health_loop : ℕ → ℕ → M W (Unit {0})
  health_loop zero deadline = fail out_of_rounds
  health_loop (suc left) deadline = health_round (health_loop left deadline) deadline

  unfoldable pub require_otbr_healthy : M W (Unit {0})
  require_otbr_healthy = do
    now ← gets env.monotonic
    health_loop (rounds (1000 * settings.boot_timeout) 1000) (now + 1000 * settings.boot_timeout)
