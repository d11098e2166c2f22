-- ===== src/Dfu/Scans.antt =====
-- The checks of dfu.py before a run do not touch the log.
use ha_nrf52840_ot_rcp_updat.Base.{List}
use ha_nrf52840_ot_rcp_updat.Dfu.Target.{DfuSelector}
use ha_nrf52840_ot_rcp_updat.Dfu.Machine.{Flasher, Machine}
use ha_nrf52840_ot_rcp_updat.Effects.{Event, dfu}
use ha_nrf52840_ot_rcp_updat.Effects.Finds.{
  Finds, Finds-lift, Finds-after, Finds-gets, Finds-raise_if,
}
use ha_nrf52840_ot_rcp_updat.Dfu.Flasher.{validate_selector, require_executable}

module _ {W : Type 0} (machine : Machine W) (flasher : Flasher) {R : W → Type 0}
    {I : List Event → Type 0} where
  pub validate_selector-Finds :
      (selector : DfuSelector)
      → Finds R I (λ _. Unit {0}) (validate_selector machine flasher selector)
  unfolding validate_selector
  validate_selector-Finds selector =
      Finds-after _ _ (Finds-lift _ (λ _ _. tt))
        (λ _. Finds-after _ _ (Finds-lift _ (λ _ _. tt)) (λ _. Finds-raise_if _ dfu))

  pub require_executable-Finds : Finds R I (λ _. Unit {0}) (require_executable machine flasher)
  unfolding require_executable
  require_executable-Finds = Finds-after _ _ (Finds-gets _) (λ _. Finds-raise_if _ dfu)
