-- ===== src/Dfu/Flasher.antt =====
-- `NrfDfuFlasher` of dfu.py. The texts of errors are left out, and of the diagnostics what only
-- explains them.
use ha_nrf52840_ot_rcp_updat.Base.{
  ℕ, zero, ◌-◌, Bool, true, false, not, ◌&&◌, ◌||◌, List, [], ◌∷◌, ◌++◌, length, drop, Option, none,
  some, Result, ok, err, if◌then◌else◌, require,
}
use ha_nrf52840_ot_rcp_updat.Base.Int.{ℤ, pos}
use ha_nrf52840_ot_rcp_updat.Base.Text.{Text, codes, lower, text_eq}
use ha_nrf52840_ot_rcp_updat.Dfu.Target.{Argument, word, DfuTarget, DfuTargetProbe, DfuSelector}
use ha_nrf52840_ot_rcp_updat.Dfu.Paths.{
  join, name_of, parents_of, is_usb_serial, is_usb_path, strip, sort_texts,
}
use ha_nrf52840_ot_rcp_updat.Dfu.Machine.{Flasher, Machine}
use ha_nrf52840_ot_rcp_updat.Effects.{
  is_os_error, Class, dfu, timeout_expired, ran, M, pure, raise, catch, call, gets, write, on_class,
  raise_if, lift, ◌>>=◌, ◌>>◌,
}

-- `DEFAULT_DFU_VID_PID`
abbrev pub dfu_vid_pid : Text
dfu_vid_pid = codes "1915:521f"

-- `_validate_serial`, `_validate_usb_path` and `_validate_selector`
unfoldable pub validate_serial : Text → Result Class (Unit {0})
validate_serial serial_number = require (is_usb_serial serial_number) dfu

unfoldable pub validate_usb_path : Text → Result Class (Unit {0})
validate_usb_path usb_path = require (is_usb_path usb_path) dfu

abbrev pub if_some : (Text → Result Class (Unit {0})) → Option Text → Result Class (Unit {0})
if_some check none = ok tt
if_some check (some value) = check value

-- Just one of the live path and the configured one.
abbrev pub one_path : Option Text → Option Text → Bool
one_path none none = false
one_path (some path) (some usb_path) = false
one_path physical_path usb_path = true

-- `value is None or actual == value`
abbrev pub fits : Option Text → Text → Bool
fits none actual = true
fits (some value) actual = text_eq actual value

-- The tests of `_matching_dfu_targets` on a device and on its serial number.
unfoldable pub is_wanted_device : DfuSelector → Text → Text → Bool
is_wanted_device selector physical_path vid_pid =
    text_eq vid_pid dfu_vid_pid
    && fits selector.physical_path physical_path
    && fits selector.usb_path (name_of physical_path)

-- `candidates_by_path.setdefault`
unfoldable pub add_target : List DfuTarget → DfuTarget → List DfuTarget
add_target [] target = target ∷ []
add_target (found ∷ others) target =
    let rest = add_target others target in
    if text_eq found.physical_path target.physical_path then found ∷ others else found ∷ rest

abbrev pub absent : Text → DfuTargetProbe
absent diagnostic = record {
  present = false;
  diagnostic = diagnostic;
  target = none;
  ready = false;
}

-- `output[-1024:]`
abbrev pub tail_of : Text → Text
tail_of output = drop (length output - 1024) output

abbrev pub is_success : ℤ → Bool
is_success (pos zero) = true
is_success code = false

abbrev pub is_timeout : Class → Bool
is_timeout timeout_expired = true
is_timeout class = false

-- `_target_arguments`
abbrev pub arguments_for : Text → Option Text → Result Class (List Argument)
arguments_for serial_number none = err dfu
arguments_for serial_number (some port) =
    ok (word (codes "--serial") ∷ word serial_number ∷ word (codes "--port") ∷ word port ∷ [])

unfoldable pub target_arguments : DfuTarget → Result Class (List Argument)
target_arguments target = arguments_for target.serial_number target.serial_port

module _ {W : Type 0} (machine : Machine W) (flasher : Flasher) where
  unfoldable pub validate_selector : DfuSelector → M W (Unit {0})
  validate_selector selector = do
    lift (if_some validate_serial selector.serial_number)
    lift (if_some validate_usb_path selector.usb_path)
    raise_if (not (one_path selector.physical_path selector.usb_path)) dfu

  -- `_require_executable`
  unfoldable pub require_executable : M W (Unit {0})
  require_executable = do
    available ← gets (machine.has_executable flasher.executable)
    raise_if (not available) dfu

  -- `_run`
  unfoldable pub run : List Argument → ℕ → M W (ℤ × Text)
  run command timeout = do
    write (ran command)
    catch (call (machine.run_process command timeout))
        (on_class (λ class. is_os_error class || is_timeout class) (raise dfu))

  -- A command of nrfdfu on one target.
  unfoldable pub run_on : DfuTarget → List Argument → ℕ → M W (ℤ × Text)
  run_on target options timeout = do
    arguments ← lift (target_arguments target)
    run (word flasher.executable ∷ arguments ++ options) timeout

  -- `_read_usb_serial`
  abbrev pub checked_serial : Text → Option Text
  checked_serial serial = if is_usb_serial serial then some serial else none

  unfoldable pub read_usb_serial : Text → M W (Option Text)
  read_usb_serial physical_path =
      catch
        (do
          serial ← call (machine.read_text (join physical_path (codes "serial")))
          pure (checked_serial (strip serial)))
        (on_class is_os_error (pure none))

  -- The `try` of `_matching_dfu_targets`: the resolved path, and the identity.
  unfoldable pub read_identity : Text → M W (Option (Text × Text))
  read_identity candidate =
      catch
        (do
          physical_path ← call (machine.resolve candidate)
          vendor ← call (machine.read_text (join physical_path (codes "idVendor")))
          product ← call (machine.read_text (join physical_path (codes "idProduct")))
          pure (some (physical_path, lower (strip vendor) ++ (b':' ∷ lower (strip product)))))
        (on_class is_os_error (pure none))

  abbrev pub with_serial : DfuSelector → Text → Option Text → Option DfuTarget
  with_serial selector physical_path none = none
  with_serial selector physical_path (some serial_number) =
      if fits selector.serial_number serial_number
      then some (record {
        serial_number = serial_number;
        physical_path = physical_path;
        serial_port = none;
      })
      else none

  unfoldable pub admit : DfuSelector → Option (Text × Text) → M W (Option DfuTarget)
  admit selector none = pure none
  admit selector (some (physical_path, vid_pid)) =
      if is_wanted_device selector physical_path vid_pid
      then (do
        serial_number ← read_usb_serial physical_path
        pure (with_serial selector physical_path serial_number))
      else pure none

  abbrev pub add_found : List DfuTarget → Option DfuTarget → List DfuTarget
  add_found found none = found
  add_found found (some target) = add_target found target

  -- The loop of `_matching_dfu_targets`.
  unfoldable pub match_targets : DfuSelector → List DfuTarget → List Text → M W (List DfuTarget)
  match_targets selector found [] = pure found
  match_targets selector found (candidate ∷ candidates) = do
    identity ← read_identity candidate
    target ← admit selector identity
    match_targets selector (add_found found target) candidates

  -- `_matching_dfu_targets`
  unfoldable pub matching_dfu_targets : DfuSelector → M W (List DfuTarget)
  matching_dfu_targets selector = do
    candidates ← call (machine.list_directory flasher.sys_bus_usb)
    match_targets selector [] candidates

  -- `_tty_ports_for_usb_device`
  unfoldable pub has_ancestor : Text → Text → Bool
  has_ancestor physical_path node = any_equal (node ∷ parents_of node)
    where
      any_equal : List Text → Bool
      any_equal [] = false
      any_equal (parent ∷ parents) = text_eq parent physical_path || any_equal parents

  unfoldable pub port_of : Text → Text → M W (List Text)
  port_of physical_path tty_path =
      catch
        (do
          node ← call (machine.resolve (join tty_path (codes "device")))
          pure (
              if has_ancestor physical_path node
              then join flasher.dev_directory (name_of tty_path) ∷ []
              else []))
        (on_class is_os_error (pure []))

  unfoldable pub collect_ports : Text → List Text → M W (List Text)
  collect_ports physical_path [] = pure []
  collect_ports physical_path (tty_path ∷ tty_paths) = do
    port ← port_of physical_path tty_path
    ports ← collect_ports physical_path tty_paths
    pure (port ++ ports)

  unfoldable pub tty_ports_for_usb_device : Text → M W (List Text)
  tty_ports_for_usb_device physical_path = do
    tty_paths ← call (machine.list_directory flasher.sys_class_tty)
    ports ← collect_ports physical_path tty_paths
    pure (sort_texts ports)
