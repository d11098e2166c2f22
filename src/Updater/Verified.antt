-- ===== src/Updater/Verified.antt =====
-- Only verified versions are stored and returned: the transactions of updater.py.
use ha_nrf52840_ot_rcp_updat.Base.{
  ◌≡◌, refl, ap, ◌∙◌, Bool-cases, inl, inr, Bool, false, List, [], ◌∷◌, Option, none, some, Result,
  ok, err,
}
use ha_nrf52840_ot_rcp_updat.Base.Text.{Text, codes, text_eq, text_eq_iff}
use ha_nrf52840_ot_rcp_updat.Models.Value.{Value, obj, text, Fields, end, field, get_field}
use ha_nrf52840_ot_rcp_updat.Models.Firmware.{PreparedFirmware}
use ha_nrf52840_ot_rcp_updat.Models.Ncp.{NcpVersion}
use ha_nrf52840_ot_rcp_updat.Models.Settings.{Settings}
use ha_nrf52840_ot_rcp_updat.Dfu.Target.{DfuSelector}
use ha_nrf52840_ot_rcp_updat.Effects.{Failure, Event, save, St, pure, ◌>>◌}
use ha_nrf52840_ot_rcp_updat.Effects.Hoare.{
  Ends, returns, raises, Hoare, Hoare-bind, Hoare-pre, Hoare-pure,
}
use ha_nrf52840_ot_rcp_updat.Effects.Keeps.{
  Keeps, Keeps-pure, Keeps-bind, Keeps-write, Keeps-call, Keeps-gets, Keeps-Hoare, Keeps-if,
  step_rules,
}
use ha_nrf52840_ot_rcp_updat.Effects.Yields.{Yields-Hoare}
use ha_nrf52840_ot_rcp_updat.Environment.{Environment}
use ha_nrf52840_ot_rcp_updat.Supervisor.Client.{otbr, temporarily_stop}
use ha_nrf52840_ot_rcp_updat.Supervisor.Requests.{Stable}
use ha_nrf52840_ot_rcp_updat.Supervisor.Handover.{temporarily_stop-rule}
use ha_nrf52840_ot_rcp_updat.Updater.Checks.{version_fields, set_field}
use ha_nrf52840_ot_rcp_updat.Updater.Steps.{Reporter, report_progress}
use ha_nrf52840_ot_rcp_updat.Updater.StepsKeep.{
  Owned, report_progress-Keeps, validate_prepared-Keeps, selector_if_rcp_is_missing-Keeps,
  prepare_safe_update-Keeps, require_otbr_healthy-Keeps,
}
use ha_nrf52840_ot_rcp_updat.Updater.Locking.{Guards, with_lock-rule}
use ha_nrf52840_ot_rcp_updat.Updater.Replacing.{replace_firmware-Keeps}
use ha_nrf52840_ot_rcp_updat.Updater.Matching.{Matches, replace_firmware-Yields}
use ha_nrf52840_ot_rcp_updat.Updater.Transaction.{
  replace_firmware, await_otbr, verified_state, store_version, locked_update, install_prepared,
}

-- The fields carry, as the installed version, a version with the tags of the firmware.
pub record HoldsVerified (firmware : PreparedFirmware) (fields : Fields) : Type 0 where
  pub version : NcpVersion
  pub matches : Matches firmware version
  pub stored : get_field (codes "installed") fields ≡ some (obj (version_fields version))

-- Every save was of such fields.
abbrev pub SavesVerified : PreparedFirmware → List Event → Type 0
SavesVerified firmware [] = Unit {0}
SavesVerified firmware (save fields ∷ before) =
    HoldsVerified firmware fields × SavesVerified firmware before
SavesVerified firmware (event ∷ before) = SavesVerified firmware before

module _ (key : Text) (value : Value) where
  get_field-set_field : (fields : Fields) → get_field key (set_field key value fields) ≡ some value
  unfolding set_field
  get_field-set_field end = rw ((text_eq_iff key key).1 refl) refl
  get_field-set_field (field name old others) = elim (Bool-cases (text_eq name key)) [
    | inl same ↦ rw (same, same) refl
    | inr differs ↦ rw (differs, differs) (get_field-set_field others)
  ]

  -- Another key keeps its value.
  get_field-set_field_other :
      (other : Text) (fields : Fields)
      → text_eq other key ≡ false
      → get_field key (set_field other value fields) ≡ get_field key fields
  unfolding set_field
  get_field-set_field_other other end h = rw h refl
  get_field-set_field_other other (field name old others) h =
      elim (Bool-cases (text_eq name other)) [
        | inl same ↦
            let apart : text_eq name key ≡ false =
              ap (λ t. text_eq t key) ((text_eq_iff name other).0 same) ∙ h in
            rw (same, apart) refl
        | inr differs ↦ rw (differs, get_field-set_field_other other others h) refl
      ]

module _ (firmware : PreparedFirmware) where
  verified_state-HoldsVerified :
      {W : Type 0} (env : Environment W) (settings : Settings) (progress : Option (Reporter W))
      (selected_target : Bool) (after : NcpVersion) (now : Text) (state : Fields)
      → Matches firmware after
      → HoldsVerified firmware
          (verified_state env settings progress firmware selected_target after now state)
  unfolding text_eq
  verified_state-HoldsVerified env settings progress selected_target after now state h = record {
    version = after;
    matches = h;
    stored =
        get_field-set_field_other (codes "installed") (text now) (codes "verified_at") _ refl
        ∙ get_field-set_field (codes "installed") (obj (version_fields after)) state;
  }

-- As a record, for the rules.
pub record Verified (firmware : PreparedFirmware) (log : List Event) : Type 0 where
  pub saves : SavesVerified firmware log

module _ {firmware : PreparedFirmware} where
  Verified-Stable : Stable (Verified firmware)
  Verified-Stable = record {
    observing = λ state log h. record { saves = h.saves };
    stopping = λ log h. record { saves = h.saves };
    starting = λ log h. record { saves = h.saves };
  }

  Verified-Owned : Owned (Verified firmware)
  Verified-Owned = record {
    reading = λ log h. record { saves = h.saves };
    rebooting = λ log h. record { saves = h.saves };
    resetting = λ log h. record { saves = h.saves };
    flashing = λ selector log h. record { saves = h.saves };
  }

  Verified-Guards : Guards (Verified firmware) (Verified firmware)
  Verified-Guards = record {
    locking = λ log h. record { saves = h.saves };
    unlocking = λ log h. record { saves = h.saves };
  }

module _ {W : Type 0} (env : Environment W) (settings : Settings) (progress : Option (Reporter W))
    (firmware : PreparedFirmware) (selected_target : Bool) where
  stopped_update-Verified :
      (preselected : Option DfuSelector) (otbr_was_running : Bool)
      → Hoare
          (λ s. Verified firmware s.log)
          (temporarily_stop env otbr (
            replace_firmware env settings progress firmware selected_target preselected
              otbr_was_running))
          (λ version s. Matches firmware version × Verified firmware s.log)
          (λ _ s. Verified firmware s.log)
  stopped_update-Verified preselected otbr_was_running =
      temporarily_stop-rule env Verified-Stable (Matches firmware) otbr _ (λ was_running.
        Hoare-pre (λ s. Verified firmware s.log) _
          (Yields-Hoare (Verified firmware)
            (replace_firmware-Yields env settings progress firmware selected_target preselected
              otbr_was_running was_running)
            (replace_firmware-Keeps env settings progress firmware selected_target Verified-Owned
              preselected otbr_was_running was_running))
          (λ s p. p.0))

  await_otbr-Verified :
      (otbr_was_running : Bool)
      → Keeps
          (Verified firmware)
          (await_otbr env settings progress firmware selected_target otbr_was_running)
  unfolding await_otbr
  await_otbr-Verified otbr_was_running =
      search
        (step_rules, report_progress-Keeps env settings, require_otbr_healthy-Keeps env settings)
        depth 8

  store_version-Verified :
      (after : NcpVersion)
      → Matches firmware after
      → Keeps
          (Verified firmware)
          (store_version env settings progress firmware selected_target after)
  unfolding store_version
  store_version-Verified after h = Keeps-bind _ _ (Keeps-call env.load) (λ state.
      Keeps-bind _ _ (Keeps-gets env.utc_now) (λ now.
        Keeps-bind _ _
          (Keeps-write _ (λ log p. record {
            saves = (
              verified_state-HoldsVerified firmware env settings progress selected_target after now
                  state h,
              p.saves,
            );
          }))
          (λ _. Keeps-call _)))

  module _ (otbr_was_running : Bool) (after : NcpVersion) (h : Matches firmware after) where
    ends-Verified :
        Hoare
          (λ s. Verified firmware s.log)
          (do
            await_otbr env settings progress firmware selected_target otbr_was_running
            store_version env settings progress firmware selected_target after
            report_progress env settings progress (some 100) (codes "Update verified")
            pure after)
          (λ version s. Matches firmware version × Verified firmware s.log)
          (λ _ s. Verified firmware s.log)
    ends-Verified =
        Hoare-bind _ _ (Keeps-Hoare (Verified firmware) (await_otbr-Verified otbr_was_running))
          (λ _.
            Hoare-bind _ _ (Keeps-Hoare (Verified firmware) (store_version-Verified after h)) (λ _.
              Hoare-bind _ _
                (Keeps-Hoare (Verified firmware)
                  (report_progress-Keeps env settings progress (some 100) _))
                (λ _. Hoare-pure after (λ s p. (h, p)))))

  locked_update-Verified :
      Hoare
        (λ s. Verified firmware s.log)
        (locked_update env settings progress firmware selected_target)
        (λ version s. Matches firmware version × Verified firmware s.log)
        (λ _ s. Verified firmware s.log)
  unfolding locked_update
  locked_update-Verified =
      Hoare-bind _ _
        (Keeps-Hoare (Verified firmware)
          (selector_if_rcp_is_missing-Keeps env settings selected_target))
        (λ preselected.
          Hoare-bind _ _
            (Keeps-Hoare (Verified firmware) (report_progress-Keeps env settings progress none _))
            (λ _.
              Hoare-bind _ _
                (Keeps-Hoare (Verified firmware)
                  (prepare_safe_update-Keeps env settings Verified-Stable))
                (λ otbr_was_running.
                  Hoare-bind _ _ (stopped_update-Verified preselected otbr_was_running) (λ after.
                    record { at = λ s p. (ends-Verified otbr_was_running after p.0).at s p.1 }))))

  pub install_prepared-Verified :
      (report_validation : Bool)
      → Hoare
          (λ s. Verified firmware s.log)
          (install_prepared env settings progress firmware selected_target report_validation)
          (λ version s. Matches firmware version × Verified firmware s.log)
          (λ _ s. Verified firmware s.log)
  unfolding install_prepared
  install_prepared-Verified report_validation =
      Hoare-bind _ _
        (Keeps-Hoare (Verified firmware) (
          Keeps-if report_validation _ _ (report_progress-Keeps env settings progress none _)
            (Keeps-pure tt)))
        (λ _.
          Hoare-bind _ _
            (Keeps-Hoare (Verified firmware) (validate_prepared-Keeps env settings firmware))
            (λ _.
              with_lock-rule env (Verified firmware) (Verified firmware) Verified-Guards
                (Matches firmware) _ locked_update-Verified))

-- How an installation ends: with a version that carries the tags of the firmware, or raised; in
-- both cases every save was of such a version.
pub data EndsVerified {W : Type 0} (firmware : PreparedFirmware)
    : Result Failure NcpVersion × St W → Type 0 where
  installed :
      {version : NcpVersion} {s : St W}
      → Matches firmware version
      → SavesVerified firmware s.log
      → EndsVerified firmware (ok version, s)
  refused :
      {failure : Failure} {s : St W}
      → SavesVerified firmware s.log
      → EndsVerified firmware (err failure, s)

module _ {W : Type 0} (env : Environment W) (settings : Settings) (progress : Option (Reporter W))
    (firmware : PreparedFirmware) where
  -- Started with nothing logged, an installation returns only a version that carries the tags of
  -- the firmware, and whether it returns or raises, every state it saved has such a version as
  -- the installed one.
  pub install_prepared-EndsVerified :
      (selected_target report_validation : Bool) (world : W)
      → EndsVerified firmware (
          install_prepared env settings progress firmware selected_target report_validation
            (record { world = world; log = [] }))
  install_prepared-EndsVerified selected_target report_validation world = by_end _ (
      (install_prepared-Verified env settings progress firmware selected_target
          report_validation).at
        _ (record { saves = tt }))
    where
      by_end :
          (r : Result Failure NcpVersion × St W)
          → Ends
              (λ version s. Matches firmware version × Verified firmware s.log)
              (λ _ s. Verified firmware s.log)
              r
          → EndsVerified firmware r
      by_end (ok version, s) (returns q) = installed q.0 q.1.saves
      by_end (err failure, s) (raises q) = refused q.saves
