-- ===== src/Dfu/Bound.antt =====
-- nrfdfu is only run on the selected device: `NrfDfuFlasher` of dfu.py.
use ha_nrf52840_ot_rcp_updat.Base.{ℕ, ◌≡◌, refl, List, [], ◌∷◌, Option, none, some, ok}
use ha_nrf52840_ot_rcp_updat.Base.Text.{Text, codes}
use ha_nrf52840_ot_rcp_updat.Dfu.Target.{Argument, word, DfuTarget, DfuSelector}
use ha_nrf52840_ot_rcp_updat.Dfu.Machine.{Flasher, Machine, Reached, ran_process}
use ha_nrf52840_ot_rcp_updat.Effects.{dfu, Event, ran}
use ha_nrf52840_ot_rcp_updat.Effects.Finds.{
  Finds, Finds-raise, Finds-on_class, Finds-catch, Finds-lift, Finds-bind, Finds-after, Finds-any,
  Finds-call, Finds-write,
}
use ha_nrf52840_ot_rcp_updat.Dfu.Flasher.{arguments_for, target_arguments, run, run_on}
use ha_nrf52840_ot_rcp_updat.Dfu.Selection.{with_port}
use ha_nrf52840_ot_rcp_updat.Dfu.Found.{IsPortOf}
use ha_nrf52840_ot_rcp_updat.Dfu.Matched.{IsSelected}

-- A command of nrfdfu that names the serial number and a port of a selected target.
pub record NamesTarget {W : Type 0} (machine : Machine W) (start : W) (flasher : Flasher)
    (selector : DfuSelector) (command : List Argument) : Type 0 where
  pub target : DfuTarget
  pub port : Text
  pub options : List Argument
  pub selected : IsSelected machine start flasher selector target
  pub exact : target.serial_port ≡ some port
  pub named :
      command
      ≡ word flasher.executable
        ∷ word (codes "--serial")
        ∷ word target.serial_number
        ∷ word (codes "--port")
        ∷ word port
        ∷ options

-- Every command that was run names a selected target.
abbrev pub RunsSelected : {W : Type 0} → Machine W → W → Flasher → DfuSelector → List Event → Type 0
RunsSelected machine start flasher selector [] = Unit {0}
RunsSelected machine start flasher selector (ran command ∷ before) =
    NamesTarget machine start flasher selector command
    × RunsSelected machine start flasher selector before
RunsSelected machine start flasher selector (event ∷ before) =
    RunsSelected machine start flasher selector before

-- As a record, for the rules.
pub record Bound {W : Type 0} (machine : Machine W) (start : W) (flasher : Flasher)
    (selector : DfuSelector) (log : List Event) : Type 0 where
  pub runs : RunsSelected machine start flasher selector log

pub with_port-IsSelected :
    {W : Type 0} (machine : Machine W) (start : W) (flasher : Flasher) {selector : DfuSelector}
    (target : DfuTarget) (port : Text)
    → IsSelected machine start flasher selector target
    → IsPortOf machine start flasher target.physical_path port
    → IsSelected machine start flasher selector (with_port machine flasher target port)
with_port-IsSelected machine start flasher target port h under = record {
  found = h.found;
  live_path = h.live_path;
  usb_path = h.usb_path;
  serial = h.serial;
  serial_read = h.serial_read;
  well_formed = h.well_formed;
  port = under;
}

module _ {W : Type 0} (machine : Machine W) (start : W) (flasher : Flasher)
    (selector : DfuSelector) where
  run-Finds :
      (command : List Argument) (timeout : ℕ)
      → NamesTarget machine start flasher selector command
      → Finds
          (Reached machine start)
          (Bound machine start flasher selector)
          (λ _. Unit {0})
          (run machine flasher command timeout)
  unfolding run
  run-Finds command timeout named =
      Finds-after _ _ (Finds-write (ran command) (λ log p. record { runs = (named, p.runs) })) (λ _.
        Finds-catch _ _ (Finds-any _ (Finds-call _ (λ _. ran_process command timeout)))
          (λ failure. Finds-on_class _ _ failure (Finds-raise dfu)))

  arguments_named :
      (target : DfuTarget) (arguments : List Argument)
      → target_arguments target ≡ ok arguments
      → (port : Text) × (target.serial_port ≡ some port)
        × (arguments
            ≡ word (codes "--serial")
              ∷ word target.serial_number
              ∷ word (codes "--port")
              ∷ word port
              ∷ [])
  unfolding target_arguments
  arguments_named target arguments h = by_port target.serial_port refl h
    where
      by_port :
          (found : Option Text)
          → target.serial_port ≡ found
          → arguments_for target.serial_number found ≡ ok arguments
          → (port : Text) × (target.serial_port ≡ some port)
            × (arguments
                ≡ word (codes "--serial")
                  ∷ word target.serial_number
                  ∷ word (codes "--port")
                  ∷ word port
                  ∷ [])
      by_port none same e = cc
      by_port (some port) same e = (port, same, cc)

  pub run_on-Finds :
      (target : DfuTarget) (options : List Argument) (timeout : ℕ)
      → IsSelected machine start flasher selector target
      → Finds
          (Reached machine start)
          (Bound machine start flasher selector)
          (λ _. Unit {0})
          (run_on machine flasher target options timeout)
  unfolding run_on
  run_on-Finds target options timeout h =
      Finds-bind _ _ (Finds-lift _ (arguments_named target)) (λ arguments (port, exact, e).
        run-Finds _ timeout (record {
          target = target;
          port = port;
          options = options;
          selected = h;
          exact = exact;
          named = rw e refl;
        }))
