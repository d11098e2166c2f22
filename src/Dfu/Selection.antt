-- ===== src/Dfu/Selection.antt =====
-- `NrfDfuFlasher` of dfu.py: the probe of one device, and the commands that use it.
use ha_nrf52840_ot_rcp_updat.Base.{
  ℕ, zero, suc, ◌+◌, true, false, not, ◌&&◌, ◌||◌, List, [], ◌∷◌, ◌++◌, Option, none, some, leb,
  if◌then◌else◌,
}
use ha_nrf52840_ot_rcp_updat.Base.Text.{Text, codes, lower}
use ha_nrf52840_ot_rcp_updat.Dfu.Target.{
  Argument, word, number, DfuTarget, DfuTargetProbe, DfuSelector,
}
use ha_nrf52840_ot_rcp_updat.Dfu.Paths.{join, name_of, parents_of, is_elf_name, is_usb_id, strip}
use ha_nrf52840_ot_rcp_updat.Dfu.Machine.{Flasher, Machine}
use ha_nrf52840_ot_rcp_updat.Effects.{
  is_os_error, rounds, dfu, dfu_transfer, assertion, out_of_rounds, M, pure, fail, raise, catch,
  call, gets, change, on_class, raise_if, lift, ◌>>=◌, ◌>>◌,
}
use ha_nrf52840_ot_rcp_updat.Dfu.Flasher.{
  validate_serial, validate_usb_path, if_some, absent, tail_of, is_success, validate_selector,
  require_executable, run_on, read_usb_serial, matching_dfu_targets, tty_ports_for_usb_device,
}

module _ {W : Type 0} (machine : Machine W) (flasher : Flasher) where
  abbrev pub with_port : DfuTarget → Text → DfuTarget
  with_port target port = record target { serial_port = some port }

  abbrev pub unready : Text → Option DfuTarget → DfuTargetProbe
  unready diagnostic target = record {
    present = true;
    diagnostic = diagnostic;
    target = target;
    ready = false;
  }

  -- The loop of `probe_dfu_target` over the ports, with the output and the target of the last one.
  unfoldable pub try_ports : DfuTarget → Text → Option DfuTarget → List Text → M W DfuTargetProbe
  try_ports target last_output last_target [] = pure (unready (tail_of last_output) last_target)
  try_ports target last_output last_target (port ∷ ports) = do
    (returncode, output) ←
        run_on machine flasher (with_port target port) (word (codes "--get-images") ∷ []) 10000
    if is_success returncode
        then pure (record {
          present = true;
          diagnostic = tail_of output;
          target = some (with_port target port);
          ready = true;
        })
        else try_ports target output (some (with_port target port)) ports

  abbrev pub probe_ports : DfuTarget → Option (List Text) → M W DfuTargetProbe
  probe_ports target none = pure (absent (codes "cannot enumerate serial topology"))
  probe_ports target (some []) = pure (unready (codes "no serial endpoint") (some target))
  probe_ports target (some (port ∷ ports)) = try_ports target [] none (port ∷ ports)

  unfoldable pub probe_target : DfuTarget → M W DfuTargetProbe
  probe_target target = do
    ports ←
        catch
          (do
            ports ← tty_ports_for_usb_device machine flasher target.physical_path
            pure (some ports))
          (on_class is_os_error (pure none))
    probe_ports target ports

  abbrev pub probe_candidates : Option (List DfuTarget) → M W DfuTargetProbe
  probe_candidates none = pure (absent (codes "cannot enumerate USB topology"))
  probe_candidates (some []) = pure (absent (codes "no USB target"))
  probe_candidates (some (target ∷ [])) = probe_target target
  probe_candidates (some (target ∷ other ∷ others)) = pure (absent (codes "multiple USB targets"))

  unfoldable pub probe_dfu_target : DfuSelector → M W DfuTargetProbe
  probe_dfu_target selector = do
    validate_selector machine flasher selector
    require_executable machine flasher
    candidates ←
        catch (do found ← matching_dfu_targets machine flasher selector; pure (some found))
          (on_class is_os_error (pure none))
    probe_candidates candidates

  -- `_wait_for_dfu_target`: a round of its loop, with the rounds that follow.
  abbrev pub or_assert : Option DfuTarget → M W DfuTarget
  or_assert none = raise assertion
  or_assert (some target) = pure target

  unfoldable pub wait_again : M W DfuTarget → ℕ → DfuTargetProbe → M W DfuTarget
  wait_again again deadline probe = if probe.ready then or_assert probe.target else (do
    now ← gets machine.monotonic
    if leb deadline now then raise dfu else (do change (machine.sleep 1000); again))

  unfoldable pub wait_target_loop : ℕ → DfuSelector → ℕ → M W DfuTarget
  wait_target_loop zero selector deadline = fail out_of_rounds
  wait_target_loop (suc left) selector deadline = do
    probe ← probe_dfu_target selector
    wait_again (wait_target_loop left selector deadline) deadline probe

  unfoldable pub wait_for_dfu_target : DfuSelector → M W DfuTarget
  wait_for_dfu_target selector = do
    now ← gets machine.monotonic
    wait_target_loop (rounds flasher.ready_timeout 1000) selector (now + flasher.ready_timeout)

  -- The options of a transfer.
  abbrev pub flash_options : Text → ℕ → ℕ → List Argument
  flash_options firmware application_version hardware_version =
      word (codes "--fw-version")
      ∷ number application_version
      ∷ word (codes "--hw-version")
      ∷ number hardware_version
      ∷ word (codes "--abort")
      ∷ word firmware
      ∷ []

  -- `flash`; a version is a natural number.
  unfoldable pub flash_target : Text → DfuSelector → ℕ → ℕ → M W DfuTarget
  flash_target firmware selector application_version hardware_version = do
    present ← gets (machine.is_file firmware)
    raise_if (not present || not (is_elf_name firmware)) dfu
    validate_selector machine flasher selector
    raise_if (not (leb application_version 0xffffffff)) dfu
    raise_if (not (leb hardware_version 0xffffffff)) dfu
    require_executable machine flasher
    target ← wait_for_dfu_target selector
    (returncode, output) ←
        run_on machine flasher target (flash_options firmware application_version hardware_version)
          300000
    raise_if (not (is_success returncode)) dfu_transfer
    pure target

  unfoldable pub reboot_application : DfuTarget → M W (Unit {0})
  reboot_application target = do
    lift (validate_serial target.serial_number)
    require_executable machine flasher
    (returncode, output) ← run_on machine flasher target (word (codes "--abort") ∷ []) 30000
    raise_if (not (is_success returncode)) dfu

  -- The `try` of `_usb_parent_for_tty`.
  unfoldable pub tty_node : Text → M W (Option Text)
  tty_node device =
      catch
        (do
          resolved ← call (machine.resolve device)
          node ← call (
              machine.resolve
                (join (join flasher.sys_class_tty (name_of resolved)) (codes "device")))
          pure (some node))
        (on_class is_os_error (pure none))

  unfoldable pub first_usb_device : List Text → M W (Option Text)
  first_usb_device [] = pure none
  first_usb_device (parent ∷ parents) = do
    has_vendor ← gets (machine.is_file (join parent (codes "idVendor")))
    has_product ← gets (machine.is_file (join parent (codes "idProduct")))
    if has_vendor && has_product then pure (some parent) else first_usb_device parents

  abbrev pub ancestor_of : Option Text → M W (Option Text)
  ancestor_of none = pure none
  ancestor_of (some node) = first_usb_device (node ∷ parents_of node)

  unfoldable pub usb_parent_for_tty : Text → M W (Option Text)
  usb_parent_for_tty device = do node ← tty_node device; ancestor_of node

  abbrev pub selector_at : Option Text → Option Text → M W DfuSelector
  selector_at serial_number none = raise dfu
  selector_at serial_number (some physical_path) = pure (record {
    physical_path = some physical_path;
    serial_number = serial_number;
    usb_path = none;
  })

  unfoldable pub selector_for_device : Text → Option Text → M W DfuSelector
  selector_for_device device configured_serial = do
    lift (if_some validate_serial configured_serial)
    physical_path ← usb_parent_for_tty device
    selector_at configured_serial physical_path

  abbrev pub selector_on : Option Text → Option Text → M W DfuSelector
  selector_on serial_number none = raise dfu
  selector_on serial_number (some usb_path) = do
    lift (validate_usb_path usb_path)
    pure (record { physical_path = none; serial_number = serial_number; usb_path = some usb_path })

  unfoldable pub bootloader_selector : Option Text → Option Text → M W DfuSelector
  bootloader_selector configured_serial configured_usb_path = do
    lift (if_some validate_serial configured_serial)
    selector_on configured_serial configured_usb_path

  -- `normal_usb_serial` and `normal_usb_vid_pid`
  abbrev pub serial_of : Option Text → M W (Option Text)
  serial_of none = pure none
  serial_of (some parent) = read_usb_serial machine flasher parent

  unfoldable pub normal_usb_serial : Text → M W (Option Text)
  normal_usb_serial device = do parent ← usb_parent_for_tty device; serial_of parent

  abbrev pub checked_id : Text → Text → Option Text
  checked_id vendor product =
      if is_usb_id vendor && is_usb_id product then some (vendor ++ (b':' ∷ product)) else none

  abbrev pub identity_of : Option Text → M W (Option Text)
  identity_of none = pure none
  identity_of (some parent) =
      catch
        (do
          vendor ← call (machine.read_text (join parent (codes "idVendor")))
          product ← call (machine.read_text (join parent (codes "idProduct")))
          pure (checked_id (lower (strip vendor)) (lower (strip product))))
        (on_class is_os_error (pure none))

  unfoldable pub normal_usb_vid_pid : Text → M W (Option Text)
  normal_usb_vid_pid device = do parent ← usb_parent_for_tty device; identity_of parent
