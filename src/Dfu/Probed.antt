-- ===== src/Dfu/Probed.antt =====
-- The probe of dfu.py and the wait for a device run nrfdfu only on a selected target.
use ha_nrf52840_ot_rcp_updat.Base.{ℕ, zero, suc, All, List, [], ◌∷◌, Option, none, some, leb}
use ha_nrf52840_ot_rcp_updat.Base.Text.{Text}
use ha_nrf52840_ot_rcp_updat.Dfu.Target.{DfuTarget, DfuTargetProbe, DfuSelector}
use ha_nrf52840_ot_rcp_updat.Dfu.Machine.{Flasher, Machine, Reached, slept}
use ha_nrf52840_ot_rcp_updat.Effects.{is_os_error, dfu, assertion, out_of_rounds}
use ha_nrf52840_ot_rcp_updat.Effects.Finds.{
  Finds, Finds-pure, Finds-raise, Finds-fail, Finds-if, Finds-on_class, Finds-catch, Finds-bind,
  Finds-after, Finds-gets, Finds-change,
}
use ha_nrf52840_ot_rcp_updat.Dfu.Flasher.{is_success}
use ha_nrf52840_ot_rcp_updat.Dfu.Selection.{
  with_port, try_ports, probe_ports, probe_target, probe_candidates, probe_dfu_target, or_assert,
  wait_again, wait_target_loop,
}
use ha_nrf52840_ot_rcp_updat.Dfu.Scans.{validate_selector-Finds, require_executable-Finds}
use ha_nrf52840_ot_rcp_updat.Dfu.Found.{IsPortOf, tty_ports_for_usb_device-Finds}
use ha_nrf52840_ot_rcp_updat.Dfu.Matched.{
  IsSelected, AreSelected, MaySelected, matching_dfu_targets-Finds,
}
use ha_nrf52840_ot_rcp_updat.Dfu.Bound.{Bound, with_port-IsSelected, run_on-Finds}

module _ {W : Type 0} (machine : Machine W) (start : W) (flasher : Flasher)
    (selector : DfuSelector) where
  abbrev ProbeSelected : DfuTargetProbe → Type 0
  ProbeSelected probe = MaySelected machine start flasher selector probe.target

  try_ports-Finds :
      (target : DfuTarget)
      → IsSelected machine start flasher selector target
      → (ports : List Text) (output : Text) (last : Option DfuTarget)
      → All (IsPortOf machine start flasher target.physical_path) ports
      → MaySelected machine start flasher selector last
      → Finds
          (Reached machine start)
          (Bound machine start flasher selector)
          ProbeSelected
          (try_ports machine flasher target output last ports)
  unfolding try_ports
  try_ports-Finds target h [] output last all l = Finds-pure _ l
  try_ports-Finds target h (port ∷ ports) output last (under, all) l =
      let exact = with_port-IsSelected machine start flasher target port h under in
      Finds-after _ _
        (run_on-Finds machine start flasher selector (with_port machine flasher target port) _ 10000
          exact)
        (λ (returncode, output').
          Finds-if (is_success returncode) _ _ (λ _. Finds-pure _ exact)
            (λ _.
              try_ports-Finds target h ports output' (some (with_port machine flasher target port))
                all exact))

  abbrev ArePortsOf : Text → Option (List Text) → Type 0
  ArePortsOf physical_path none = Unit {0}
  ArePortsOf physical_path (some ports) = All (IsPortOf machine start flasher physical_path) ports

  probe_ports-Finds :
      (target : DfuTarget) (ports : Option (List Text))
      → ArePortsOf target.physical_path ports
      → IsSelected machine start flasher selector target
      → Finds
          (Reached machine start)
          (Bound machine start flasher selector)
          ProbeSelected
          (probe_ports machine flasher target ports)
  probe_ports-Finds target none all h = Finds-pure _ tt
  probe_ports-Finds target (some []) all h = Finds-pure _ h
  probe_ports-Finds target (some (port ∷ ports)) all h =
      try_ports-Finds target h (port ∷ ports) [] none all tt

  probe_target-Finds :
      (target : DfuTarget)
      → IsSelected machine start flasher selector target
      → Finds
          (Reached machine start)
          (Bound machine start flasher selector)
          ProbeSelected
          (probe_target machine flasher target)
  unfolding probe_target
  probe_target-Finds target h =
      Finds-bind {V = ArePortsOf target.physical_path} _ _
        (Finds-catch _ _
          (Finds-bind _ _
            (tty_ports_for_usb_device-Finds machine start flasher target.physical_path)
            (λ ports all. Finds-pure (some ports) all))
          (λ failure. Finds-on_class is_os_error _ failure (Finds-pure none tt)))
        (λ ports all. probe_ports-Finds target ports all h)

  abbrev MayAreSelected : Option (List DfuTarget) → Type 0
  MayAreSelected none = Unit {0}
  MayAreSelected (some targets) = AreSelected machine start flasher selector targets

  probe_candidates-Finds :
      (candidates : Option (List DfuTarget))
      → MayAreSelected candidates
      → Finds
          (Reached machine start)
          (Bound machine start flasher selector)
          ProbeSelected
          (probe_candidates machine flasher candidates)
  probe_candidates-Finds none h = Finds-pure _ tt
  probe_candidates-Finds (some []) h = Finds-pure _ tt
  probe_candidates-Finds (some (target ∷ [])) h = probe_target-Finds target h.0
  probe_candidates-Finds (some (target ∷ other ∷ others)) h = Finds-pure _ tt

  probe_dfu_target-Finds :
      Finds
        (Reached machine start)
        (Bound machine start flasher selector)
        ProbeSelected
        (probe_dfu_target machine flasher selector)
  unfolding probe_dfu_target
  probe_dfu_target-Finds = Finds-after _ _ (validate_selector-Finds machine flasher selector) (λ _.
      Finds-after _ _ (require_executable-Finds machine flasher) (λ _.
        Finds-bind {V = MayAreSelected} _ _
          (Finds-catch _ _
            (Finds-bind _ _ (matching_dfu_targets-Finds machine start flasher selector)
              (λ found h. Finds-pure (some found) h))
            (λ failure. Finds-on_class is_os_error _ failure (Finds-pure none tt)))
          probe_candidates-Finds))

  or_assert-Finds :
      (target : Option DfuTarget)
      → MaySelected machine start flasher selector target
      → Finds
          (Reached machine start)
          (Bound machine start flasher selector)
          (IsSelected machine start flasher selector)
          (or_assert machine flasher target)
  or_assert-Finds none h = Finds-raise assertion
  or_assert-Finds (some target) h = Finds-pure target h

  pub wait_target_loop-Finds :
      (left deadline : ℕ)
      → Finds
          (Reached machine start)
          (Bound machine start flasher selector)
          (IsSelected machine start flasher selector)
          (wait_target_loop machine flasher left selector deadline)
  unfolding wait_target_loop wait_again
  wait_target_loop-Finds zero deadline = Finds-fail out_of_rounds
  wait_target_loop-Finds (suc left) deadline = Finds-bind _ _ probe_dfu_target-Finds (λ probe h.
      Finds-if probe.ready _ _ (λ _. or_assert-Finds probe.target h)
        (λ _. Finds-after _ _ (Finds-gets machine.monotonic) (λ now.
          Finds-if (leb deadline now) _ _ (λ _. Finds-raise dfu)
            (λ _.
              Finds-after _ _ (Finds-change (machine.sleep 1000) (λ _. slept 1000))
                (λ _. wait_target_loop-Finds left deadline)))))
