-- ===== src/Dfu/Machine.antt =====
-- What dfu.py calls: the files of sysfs, the clock, and the process nrfdfu.
use ha_nrf52840_ot_rcp_updat.Base.{ℕ, ◌+◌, ◌≤◌, Bool, List}
use ha_nrf52840_ot_rcp_updat.Base.Int.{ℤ}
use ha_nrf52840_ot_rcp_updat.Base.Text.{Text}
use ha_nrf52840_ot_rcp_updat.Dfu.Target.{Argument}
use ha_nrf52840_ot_rcp_updat.Effects.{Call}
use ha_nrf52840_ot_rcp_updat.Environment.{Forward}

-- The fields that the constructor of `NrfDfuFlasher` sets; the time is in milliseconds.
pub record Flasher : Type 0 where
  pub executable : Text
  pub ready_timeout : ℕ
  pub sys_class_tty : Text
  pub sys_bus_usb : Text
  pub dev_directory : Text

pub record Machine (W : Type 0) : Type 0 where
  pub monotonic : W → ℕ
  pub sleep : ℕ → W → W
  -- `shutil.which(executable) is not None`
  pub has_executable : Text → W → Bool
  -- `is_file`, `iterdir`, `resolve(strict=True)`, `read_text(encoding="ascii")`
  pub is_file : Text → W → Bool
  pub list_directory : Text → Call W (List Text)
  pub resolve : Text → Call W Text
  pub read_text : Text → Call W Text
  -- `subprocess.run` with a timeout: the return code, and the end of the output as a text
  pub run_process : List Argument → ℕ → Call W (ℤ × Text)

-- How the clock behaves: sleeping lets it run on, and no call turns it back.
pub record MachineLaws {W : Type 0} (machine : Machine W) : Type 0 where
  pub sleeps : (d : ℕ) (w : W) → machine.monotonic w + d ≤ machine.monotonic (machine.sleep d w)
  pub list_directory : (path : Text) → Forward machine.monotonic (machine.list_directory path)
  pub resolve : (path : Text) → Forward machine.monotonic (machine.resolve path)
  pub read_text : (path : Text) → Forward machine.monotonic (machine.read_text path)
  pub run_process :
      (command : List Argument) (timeout : ℕ)
      → Forward machine.monotonic (machine.run_process command timeout)

-- The worlds that a run which began in `start` may visit, by sleeping and by calls.
pub data Reached {W : Type 0} (machine : Machine W) (start : W) : W → Type 0 where
  begun : Reached machine start start
  slept : {w : W} (d : ℕ) → Reached machine start w → Reached machine start (machine.sleep d w)
  listed :
      {w : W} (path : Text)
      → Reached machine start w
      → Reached machine start (machine.list_directory path w).1
  resolved :
      {w : W} (path : Text)
      → Reached machine start w
      → Reached machine start (machine.resolve path w).1
  read :
      {w : W} (path : Text)
      → Reached machine start w
      → Reached machine start (machine.read_text path w).1
  ran_process :
      {w : W} (command : List Argument) (timeout : ℕ)
      → Reached machine start w
      → Reached machine start (machine.run_process command timeout w).1
