-- ===== src/Environment.antt =====
-- What the update transaction of updater.py and supervisor.py calls: the clock, the Supervisor
-- over HTTP, the files, and the interfaces of the other parts. Every operation may answer and
-- change the world as it likes. Times are milliseconds.
pub mod Bench
use ha_nrf52840_ot_rcp_updat.Base.{ℕ, ◌+◌, ◌≤◌, Bool, List, Option}
use ha_nrf52840_ot_rcp_updat.Base.Text.{Text}
use ha_nrf52840_ot_rcp_updat.Models.Value.{Value, Fields}
use ha_nrf52840_ot_rcp_updat.Models.Firmware.{FirmwareRelease}
use ha_nrf52840_ot_rcp_updat.Models.Ncp.{NcpVersion}
use ha_nrf52840_ot_rcp_updat.Dfu.Target.{DfuSelector, DfuTarget, DfuTargetProbe}
use ha_nrf52840_ot_rcp_updat.Effects.{Call}

pub data Method : Type 0 where
  get post : Method

pub record Environment (W : Type 0) : Type 0 where
  -- `monotonic` and `sleep` of the module `time`, and the current time as a text
  pub monotonic : W → ℕ
  pub sleep : ℕ → W → W
  pub utc_now : W → Text
  -- `urlopen` of a Supervisor request, and the decoded JSON of its response
  pub send : Method → Text → Call W Value
  -- files: `stat().st_size`, `read_bytes`, `exists`; the digest in hexadecimal
  pub size_of : Text → Call W ℕ
  pub read_bytes : Text → Call W (List ℕ)
  pub exists : Text → Call W Bool
  pub sha256_hex : List ℕ → Text
  -- `download_artifact` of manifest.py: the path of the verified image
  pub download_artifact : FirmwareRelease → Call W Text
  -- `update_lock`, before and after its body
  pub acquire_lock : Call W (Unit {0})
  pub release_lock : Call W (Unit {0})
  -- `StateStore`
  pub load : Call W Fields
  pub save : Fields → Call W (Unit {0})
  -- `SpinelClient` on the configured device
  pub get_ncp_version : Call W NcpVersion
  pub reset_bootloader : Call W (Unit {0})
  -- `NrfDfuFlasher`
  pub selector_for_device : Text → Option Text → Call W DfuSelector
  pub bootloader_selector : Option Text → Option Text → Call W DfuSelector
  pub probe_dfu_target : DfuSelector → Call W DfuTargetProbe
  pub flash : Text → DfuSelector → ℕ → Call W (Unit {0})
  pub reboot_application : DfuTarget → Call W (Unit {0})
  -- `OtbrRestClient`
  pub require_quiet_management_window : ℕ → Call W (Unit {0})
  pub require_healthy : Call W (Unit {0})

-- A call that does not turn the clock back.
abbrev pub Forward : {W A : Type 0} → (W → ℕ) → Call W A → Type 0
Forward {W} clock operation = (w : W) → clock w ≤ clock (operation w).1

-- How the clock behaves: sleeping lets it run on, and no call turns it back.
pub record ClockLaws {W : Type 0} (env : Environment W) : Type 0 where
  pub sleeps : (d : ℕ) (w : W) → env.monotonic w + d ≤ env.monotonic (env.sleep d w)
  pub send : (method : Method) (path : Text) → Forward env.monotonic (env.send method path)
  pub size_of : (path : Text) → Forward env.monotonic (env.size_of path)
  pub read_bytes : (path : Text) → Forward env.monotonic (env.read_bytes path)
  pub exists : (path : Text) → Forward env.monotonic (env.exists path)
  pub download_artifact :
      (release : FirmwareRelease) → Forward env.monotonic (env.download_artifact release)
  pub acquire_lock : Forward env.monotonic env.acquire_lock
  pub release_lock : Forward env.monotonic env.release_lock
  pub load : Forward env.monotonic env.load
  pub save : (fields : Fields) → Forward env.monotonic (env.save fields)
  pub get_ncp_version : Forward env.monotonic env.get_ncp_version
  pub reset_bootloader : Forward env.monotonic env.reset_bootloader
  pub selector_for_device :
      (device : Text) (serial : Option Text)
      → Forward env.monotonic (env.selector_for_device device serial)
  pub bootloader_selector :
      (serial path : Option Text) → Forward env.monotonic (env.bootloader_selector serial path)
  pub probe_dfu_target :
      (selector : DfuSelector) → Forward env.monotonic (env.probe_dfu_target selector)
  pub flash :
      (path : Text) (selector : DfuSelector) (version : ℕ)
      → Forward env.monotonic (env.flash path selector version)
  pub reboot_application :
      (target : DfuTarget) → Forward env.monotonic (env.reboot_application target)
  pub require_quiet_management_window :
      (window : ℕ) → Forward env.monotonic (env.require_quiet_management_window window)
  pub require_healthy : Forward env.monotonic env.require_healthy
