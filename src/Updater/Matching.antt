-- ===== src/Updater/Matching.antt =====
-- What the steps of updater.py return carries the tags of the firmware.
use ha_nrf52840_ot_rcp_updat.Base.{
  ℕ, zero, suc, ◌≡◌, refl, ◌&&◌, Bool, true, false, [], ◌∷◌, ◌++◌, Option, none, some, ok, ltb,
  if◌then◌else◌,
}
use ha_nrf52840_ot_rcp_updat.Base.Text.{Text, codes}
use ha_nrf52840_ot_rcp_updat.Models.Firmware.{PreparedFirmware}
use ha_nrf52840_ot_rcp_updat.Models.Ncp.{NcpVersion}
use ha_nrf52840_ot_rcp_updat.Models.Settings.{Settings}
use ha_nrf52840_ot_rcp_updat.Dfu.Target.{DfuSelector, DfuTarget}
use ha_nrf52840_ot_rcp_updat.Effects.{update, assertion, out_of_rounds, M}
use ha_nrf52840_ot_rcp_updat.Effects.Yields.{
  Yields, Yields-pure, Yields-fail, Yields-raise, Yields-if, Yields-on_class, Yields-catch,
  Yields-lift, Yields-bind, Yields-after,
}
use ha_nrf52840_ot_rcp_updat.Environment.{Environment}
use ha_nrf52840_ot_rcp_updat.Updater.Checks.{
  tag_is, none_left, mismatches, verify_expected, verify_package, matches_package,
}
use ha_nrf52840_ot_rcp_updat.Updater.Steps.{
  Reporter, is_update, is_dfu, spinel_or_update, read_expected, poll_round, poll_loop, poll_release,
  or_update, wait_without_selector, reboot_target, reboot_and_wait, retry,
  wait_for_expected_release,
}
use ha_nrf52840_ot_rcp_updat.Updater.Transaction.{
  verify_radio, flash_radio, update_radio, replace_firmware,
}

-- The version carries the three tags of the firmware.
abbrev pub Matches : PreparedFirmware → NcpVersion → Type 0
Matches firmware version = matches_package version firmware ≡ true

-- The tags are accepted only when all three agree.
pub tags_agree :
    (a b c : Bool) (x y z : Text)
    → none_left
        ((if a then [] else x ∷ []) ++ ((if b then [] else y ∷ []) ++ (if c then [] else z ∷ [])))
      ≡ ok tt
    → (a && b && c) ≡ true
tags_agree true true true x y z h = refl
tags_agree true true false x y z h = cc
tags_agree true false c x y z h = cc
tags_agree false b c x y z h = cc

pub verify_package-Matches :
    (version : NcpVersion) (firmware : PreparedFirmware) (done : Unit {0})
    → verify_package version firmware ≡ ok done
    → Matches firmware version
unfolding verify_package verify_expected mismatches matches_package
verify_package-Matches version firmware done h =
    tags_agree (tag_is version.hardware firmware.hardware)
      (tag_is version.ncs_version firmware.ncs_version)
      (tag_is version.zephyr_version firmware.zephyr_version) (codes "hardware")
      (codes "ncs_version") (codes "zephyr_version") h

-- A version that was found, if any, carries the tags.
abbrev pub FoundMatches : PreparedFirmware → Option NcpVersion → Type 0
FoundMatches firmware none = Unit {0}
FoundMatches firmware (some version) = Matches firmware version

module _ {W : Type 0} (env : Environment W) (settings : Settings)
    (firmware : PreparedFirmware) where
  read_expected-Yields : Yields (FoundMatches firmware) (read_expected env settings firmware)
  unfolding read_expected
  read_expected-Yields = Yields-after _ _ (λ version.
      Yields-bind {V = λ _. Matches firmware version} _ _
        (Yields-lift _ (verify_package-Matches version firmware))
        (λ _ matches. Yields-pure (some version) matches))

  poll_round-Yields :
      (again : M W (Option NcpVersion)) (deadline : ℕ)
      → Yields (FoundMatches firmware) again
      → Yields (FoundMatches firmware) (poll_round env settings again firmware deadline)
  unfolding poll_round
  poll_round-Yields again deadline h = Yields-after _ _ (λ now.
      Yields-if (ltb now deadline) _ _
        (λ _.
          Yields-catch _ _ read_expected-Yields
            (λ failure. Yields-on_class spinel_or_update _ failure (Yields-after _ _ (λ _. h))))
        (λ _. Yields-pure none tt))

  poll_loop-Yields :
      (left deadline : ℕ)
      → Yields (FoundMatches firmware) (poll_loop env settings left firmware deadline)
  unfolding poll_loop
  poll_loop-Yields zero deadline = Yields-fail out_of_rounds
  poll_loop-Yields (suc left) deadline =
      poll_round-Yields _ deadline (poll_loop-Yields left deadline)

  poll_release-Yields : Yields (FoundMatches firmware) (poll_release env settings firmware)
  unfolding poll_release
  poll_release-Yields = Yields-after _ _ (λ now. poll_loop-Yields _ _)

  or_update-Yields :
      (found : Option NcpVersion)
      → FoundMatches firmware found
      → Yields (Matches firmware) (or_update env settings found)
  or_update-Yields none matches = Yields-raise update
  or_update-Yields (some version) matches = Yields-pure version matches

  wait_without_selector-Yields :
      Yields (Matches firmware) (wait_without_selector env settings firmware)
  unfolding wait_without_selector
  wait_without_selector-Yields = Yields-bind _ _ poll_release-Yields or_update-Yields

  module _ (progress : Option (Reporter W)) where
    reboot_target-Yields :
        (target : Option DfuTarget)
        → Yields (FoundMatches firmware) (reboot_target env settings firmware progress target)
    unfolding reboot_target
    reboot_target-Yields none = Yields-raise assertion
    reboot_target-Yields (some target) = Yields-after _ _ (λ _. Yields-after _ _ (λ _.
        Yields-after _ _ (λ _.
          Yields-bind _ _ wait_without_selector-Yields
            (λ version matches. Yields-pure (some version) matches))))

    reboot_and_wait-Yields :
        (selector : DfuSelector)
        → Yields (FoundMatches firmware) (reboot_and_wait env settings firmware progress selector)
    unfolding reboot_and_wait
    reboot_and_wait-Yields selector = Yields-after _ _ (λ probe.
        Yields-if probe.present _ _ (λ _. reboot_target-Yields probe.target)
          (λ _. Yields-pure none tt))

    retry-Yields :
        (selector : DfuSelector) (found : Option NcpVersion)
        → FoundMatches firmware found
        → Yields (Matches firmware) (retry env settings firmware progress selector found)
    retry-Yields selector (some version) matches = Yields-pure version matches
    retry-Yields selector none matches =
        Yields-bind {V = FoundMatches firmware} _ _
          (Yields-catch _ _ (reboot_and_wait-Yields selector)
            (λ failure. Yields-on_class is_dfu _ failure (Yields-raise update)))
          or_update-Yields

    pub wait_for_expected_release-Yields :
        (selector : DfuSelector)
        → Yields
            (Matches firmware)
            (wait_for_expected_release env settings firmware progress selector)
    unfolding wait_for_expected_release
    wait_for_expected_release-Yields selector =
        Yields-bind _ _ poll_release-Yields (retry-Yields selector)

module _ {W : Type 0} (env : Environment W) (settings : Settings) (progress : Option (Reporter W))
    (firmware : PreparedFirmware) (selected_target : Bool) where
  verify_radio-Yields :
      (selector : DfuSelector) (transferred : Bool)
      → Yields
          (Matches firmware)
          (verify_radio env settings progress firmware selected_target selector transferred)
  unfolding verify_radio
  verify_radio-Yields selector transferred =
      let waited = wait_for_expected_release-Yields env settings firmware progress selector in
      Yields-after _ _ (λ _. Yields-after _ _ (λ _.
        Yields-if transferred _ _ (λ _. waited)
          (λ _.
            Yields-catch _ _ waited
              (λ failure. Yields-on_class is_update _ failure (Yields-raise update)))))

  flash_radio-Yields :
      (before : Option NcpVersion) (found : Option DfuSelector)
      → Yields
          (Matches firmware)
          (flash_radio env settings progress firmware selected_target before found)
  unfolding flash_radio
  flash_radio-Yields before found = Yields-after _ _ (λ selector.
      Yields-after _ _
        (λ _. Yields-after _ _ (λ transferred. verify_radio-Yields selector transferred)))

  update_radio-Yields :
      (radio : Option NcpVersion × Option DfuSelector)
      → Yields
          (Matches firmware)
          (update_radio env settings progress firmware selected_target radio)
  unfolding update_radio
  update_radio-Yields (none, found) = flash_radio-Yields none found
  update_radio-Yields (some before, found) = Yields-after _ _ (λ _.
      Yields-if (matches_package before firmware) _ _
        (λ matches. Yields-after _ _ (λ _. Yields-pure before matches))
        (λ _. flash_radio-Yields (some before) found))

  pub replace_firmware-Yields :
      (preselected : Option DfuSelector) (otbr_was_running was_running : Bool)
      → Yields (Matches firmware) (
          replace_firmware env settings progress firmware selected_target preselected
            otbr_was_running was_running)
  unfolding replace_firmware
  replace_firmware-Yields preselected otbr_was_running was_running =
      Yields-after _ _ (λ _. Yields-after _ _ (λ radio. update_radio-Yields radio))
