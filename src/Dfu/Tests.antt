-- ===== src/Dfu/Tests.antt =====
-- A transfer of dfu.py on a concrete machine with two devices.
use ha_nrf52840_ot_rcp_updat.Base.{
  ℕ, zero, ◌+◌, ◌≡◌, refl, true, false, List, [], ◌∷◌, none, some, Result, ok, if◌then◌else◌,
}
use ha_nrf52840_ot_rcp_updat.Base.Int.{pos}
use ha_nrf52840_ot_rcp_updat.Base.Text.{Text, codes, lower, text_eq, text_in}
use ha_nrf52840_ot_rcp_updat.Models.Tokens.{is_token, is_usb_topology}
use ha_nrf52840_ot_rcp_updat.Dfu.Target.{DfuTarget, DfuSelector}
use ha_nrf52840_ot_rcp_updat.Dfu.Paths.{
  join, name_of, parents_of, is_elf_name, is_usb_serial, is_usb_path, strip, sort_texts,
}
use ha_nrf52840_ot_rcp_updat.Dfu.Machine.{Flasher, Machine}
use ha_nrf52840_ot_rcp_updat.Dfu.Selection.{
  flash_target, wait_for_dfu_target, wait_target_loop, probe_dfu_target, probe_target, try_ports,
  wait_again,
}
use ha_nrf52840_ot_rcp_updat.Dfu.Flasher.{
  matching_dfu_targets, add_target, admit, collect_ports, has_ancestor, is_wanted_device,
  match_targets, port_of, read_identity, read_usb_serial, run, run_on, target_arguments,
  tty_ports_for_usb_device, validate_serial, validate_selector, validate_usb_path,
  require_executable,
}
use ha_nrf52840_ot_rcp_updat.Dfu.Flashing.{EndsBound, flash_target-EndsBound}
use ha_nrf52840_ot_rcp_updat.Effects.{
  ◌>>=◌, gets, raise_if, pure, lift, catch, call, change, fail, raise, write, Failure, St,
}

abbrev sysfs_text : Text → Text
sysfs_text path =
    if text_in path (codes "/usb/1-2/idVendor" ∷ codes "/usb/1-3/idVendor" ∷ [])
    then codes "1915"
    else if text_eq path (codes "/usb/1-2/idProduct")
    then codes " 521F"
    else if text_eq path (codes "/usb/1-2/serial")
    then codes "ABC123"
    else codes "cafe"

abbrev resolved : Text → Text
resolved path =
    if text_eq path (codes "/tty/ttyACM0/device") then codes "/usb/1-2/1-2:1.0" else path

abbrev entries : Text → List Text
entries path =
    if text_eq path (codes "/usb")
    then codes "/usb/1-3" ∷ codes "/usb/1-2" ∷ []
    else codes "/tty/ttyACM0" ∷ []

-- The world is the clock.
abbrev machine : Machine ℕ
machine = record {
  monotonic = λ w. w;
  sleep = λ d w. w + d;
  has_executable = λ name w. true;
  is_file = λ path w. true;
  list_directory = λ path w. (ok (entries path), w);
  resolve = λ path w. (ok (resolved path), w);
  read_text = λ path w. (ok (sysfs_text path), w);
  run_process = λ command timeout w. (ok (pos zero, codes "done"), w + 5);
}

abbrev flasher : Flasher
flasher = record {
  executable = codes "nrfdfu";
  ready_timeout = 30000;
  sys_class_tty = codes "/tty";
  sys_bus_usb = codes "/usb";
  dev_directory = codes "/dev";
}

abbrev selector : DfuSelector
selector = record { physical_path = none; serial_number = none; usb_path = some (codes "1-2") }

usb_path_accepted : is_usb_path (codes "2-3.1") ≡ true
unfolding is_usb_path is_usb_topology
usb_path_accepted = refl

usb_path_rejected : is_usb_path (codes "2-03") ≡ false
unfolding is_usb_path is_usb_topology
usb_path_rejected = refl

parents_listed : parents_of (codes "/a/b") ≡ codes "/a" ∷ codes "/" ∷ []
unfolding parents_of text_eq
parents_listed = refl

stripped : strip (codes " a b ") ≡ codes "a b"
unfolding strip
stripped = refl

flash_target-EndsBound_example : EndsBound machine 3 flasher selector (
    flash_target machine flasher
      (codes "/data/rcp.elf")
      selector
      7
      52
      (record { world = 3; log = [] }))
flash_target-EndsBound_example =
    flash_target-EndsBound machine flasher selector (codes "/data/rcp.elf") 7 52 3

abbrev transfer_ended : Result Failure DfuTarget × St ℕ
transfer_ended =
    flash_target machine flasher (codes "/data/rcp.elf") selector 7 52
      (record { world = 3; log = [] })

abbrev exact_target : DfuTarget
exact_target = record {
  serial_number = codes "ABC123";
  physical_path = codes "/usb/1-2";
  serial_port = some (codes "/dev/ttyACM0");
}

transfer_succeeds : transfer_ended.0 ≡ ok exact_target
unfolding flash_target matching_dfu_targets add_target admit collect_ports has_ancestor
    is_wanted_device match_targets port_of read_identity read_usb_serial run run_on target_arguments
    tty_ports_for_usb_device validate_serial validate_selector validate_usb_path require_executable
    wait_for_dfu_target wait_target_loop probe_dfu_target probe_target try_ports wait_again ◌>>=◌
    gets raise_if pure lift catch call change fail raise write lower text_eq text_in name_of
    is_elf_name is_usb_path is_usb_serial is_token is_usb_topology join parents_of sort_texts strip
transfer_succeeds = refl
