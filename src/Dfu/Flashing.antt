-- ===== src/Dfu/Flashing.antt =====
-- A transfer of dfu.py goes to the selected device.
use ha_nrf52840_ot_rcp_updat.Base.{ℕ, [], Result, ok, err}
use ha_nrf52840_ot_rcp_updat.Base.Text.{Text}
use ha_nrf52840_ot_rcp_updat.Dfu.Target.{DfuTarget, DfuSelector}
use ha_nrf52840_ot_rcp_updat.Dfu.Machine.{Flasher, Machine, Reached, begun}
use ha_nrf52840_ot_rcp_updat.Effects.{dfu, dfu_transfer, Failure, St}
use ha_nrf52840_ot_rcp_updat.Effects.Hoare.{Ends, returns, raises}
use ha_nrf52840_ot_rcp_updat.Effects.Finds.{
  Finds, Finds-pure, Finds-bind, Finds-after, Finds-gets, Finds-raise_if,
}
use ha_nrf52840_ot_rcp_updat.Dfu.Selection.{wait_for_dfu_target, flash_target}
use ha_nrf52840_ot_rcp_updat.Dfu.Scans.{validate_selector-Finds, require_executable-Finds}
use ha_nrf52840_ot_rcp_updat.Dfu.Matched.{IsSelected}
use ha_nrf52840_ot_rcp_updat.Dfu.Bound.{Bound, RunsSelected, run_on-Finds}
use ha_nrf52840_ot_rcp_updat.Dfu.Probed.{wait_target_loop-Finds}

module _ {W : Type 0} (machine : Machine W) (start : W) (flasher : Flasher)
    (selector : DfuSelector) where
  flash_target-Finds :
      (firmware : Text) (application_version hardware_version : ℕ)
      → Finds
          (Reached machine start)
          (Bound machine start flasher selector)
          (IsSelected machine start flasher selector)
          (flash_target machine flasher firmware selector application_version hardware_version)
  unfolding flash_target wait_for_dfu_target
  flash_target-Finds firmware application_version hardware_version =
      Finds-after _ _ (Finds-gets (machine.is_file firmware)) (λ present.
        Finds-after _ _ (Finds-raise_if _ dfu) (λ _.
          Finds-after _ _ (validate_selector-Finds machine flasher selector) (λ _.
            Finds-after _ _ (Finds-raise_if _ dfu) (λ _.
              Finds-after _ _ (Finds-raise_if _ dfu) (λ _.
                Finds-after _ _ (require_executable-Finds machine flasher) (λ _.
                  Finds-bind _ _
                    (Finds-after _ _ (Finds-gets machine.monotonic)
                      (λ now. wait_target_loop-Finds machine start flasher selector _ _))
                    (λ target h.
                      Finds-after _ _
                        (run_on-Finds machine start flasher selector target _ 300000 h)
                        (λ (returncode, output).
                          Finds-after _ _ (Finds-raise_if _ dfu_transfer)
                            (λ _. Finds-pure target h)))))))))

-- How a transfer ends: with a target that the selector asks for, or raised; in both cases every
-- command that was run names such a target.
pub data EndsBound {W : Type 0} (machine : Machine W) (start : W) (flasher : Flasher)
    (selector : DfuSelector) : Result Failure DfuTarget × St W → Type 0 where
  flashed :
      {target : DfuTarget} {s : St W}
      → IsSelected machine start flasher selector target
      → RunsSelected machine start flasher selector s.log
      → EndsBound machine start flasher selector (ok target, s)
  not_flashed :
      {failure : Failure} {s : St W}
      → RunsSelected machine start flasher selector s.log
      → EndsBound machine start flasher selector (err failure, s)

module _ {W : Type 0} (machine : Machine W) (flasher : Flasher) (selector : DfuSelector) where
  -- Whatever the machine answers, a transfer that starts with nothing logged returns only a
  -- selected target, and whether it returns or raises, every command that it ran (probes and the
  -- transfer) names the serial number and the port of a selected target. A selected target is a
  -- device for which the machine answered, each time in a world to which calls and sleeping lead
  -- from the start: that it is listed on the USB bus under a path that resolves to the path of
  -- the device, that its vendor and product are 1915:521f, that its serial number is the one
  -- named, and that the port named is a listed one that resolves to a node under the device. The
  -- path and the serial number are those that the selector asks for.
  pub flash_target-EndsBound :
      (firmware : Text) (application_version hardware_version : ℕ) (world : W)
      → EndsBound machine world flasher selector (
          flash_target machine flasher firmware selector application_version hardware_version
            (record { world = world; log = [] }))
  flash_target-EndsBound firmware application_version hardware_version world = by_end _ (
      (flash_target-Finds machine world flasher selector firmware application_version
          hardware_version).contract.at
        _ (record { runs = tt }, begun))
    where
      by_end :
          (r : Result Failure DfuTarget × St W)
          → Ends
              (λ target s.
                IsSelected machine world flasher selector target
                × Bound machine world flasher selector s.log
                × Reached machine world s.world)
              (λ _ s. Bound machine world flasher selector s.log × Reached machine world s.world)
              r
          → EndsBound machine world flasher selector r
      by_end (ok target, s) (returns q) = flashed q.0 q.1.runs
      by_end (err failure, s) (raises q) = not_flashed q.0.runs
