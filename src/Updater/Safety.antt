-- ===== src/Updater/Safety.antt =====
-- The radio is touched only by the owner of the lock while OTBR is down: the transactions of
-- updater.py.
use ha_nrf52840_ot_rcp_updat.Base.{
  ◌≡◌, refl, Bool, true, false, List, [], ◌∷◌, Option, none, some, Result, ok, err,
}
use ha_nrf52840_ot_rcp_updat.Base.Text.{codes}
use ha_nrf52840_ot_rcp_updat.Models.Value.{Fields}
use ha_nrf52840_ot_rcp_updat.Models.Firmware.{PreparedFirmware}
use ha_nrf52840_ot_rcp_updat.Models.Ncp.{NcpVersion}
use ha_nrf52840_ot_rcp_updat.Models.Settings.{Settings}
use ha_nrf52840_ot_rcp_updat.Dfu.Target.{DfuSelector}
use ha_nrf52840_ot_rcp_updat.Effects.{
  rescan_deferred, preflight, supervisor, update, Failure, raised, Event, lock, unlock,
  read_version, reset, reboot, flash, save, St, M, ◌>>◌, pure,
}
use ha_nrf52840_ot_rcp_updat.Effects.Hoare.{Ends, returns, raises, Hoare, Hoare-pre, Hoare-post}
use ha_nrf52840_ot_rcp_updat.Effects.Keeps.{
  Keeps, Keeps-pure, Keeps-catch, Keeps-raise, Keeps-write, Keeps-if, Keeps-bind, Keeps-fail,
  Keeps-Hoare, Keeps-raise_if, step_rules,
}
use ha_nrf52840_ot_rcp_updat.Environment.{Environment}
use ha_nrf52840_ot_rcp_updat.Supervisor.Client.{otbr, temporarily_stop}
use ha_nrf52840_ot_rcp_updat.Supervisor.Requests.{Stable}
use ha_nrf52840_ot_rcp_updat.Supervisor.Ownership.{is_down}
use ha_nrf52840_ot_rcp_updat.Supervisor.Handover.{temporarily_stop-rule}
use ha_nrf52840_ot_rcp_updat.Updater.Steps.{Reporter, report_progress}
use ha_nrf52840_ot_rcp_updat.Updater.StepsKeep.{
  Owned, report_progress-Keeps, validate_prepared-Keeps, selector_if_rcp_is_missing-Keeps,
  prepare_safe_update-Keeps, require_otbr_healthy-Keeps, spinel_version-Keeps,
}
use ha_nrf52840_ot_rcp_updat.Updater.Locking.{Guards, with_lock-rule}
use ha_nrf52840_ot_rcp_updat.Updater.Replacing.{replace_firmware-Keeps}
use ha_nrf52840_ot_rcp_updat.Updater.Transaction.{
  replace_firmware, await_otbr, store_version, locked_update, install_prepared, deferred,
  read_stopped, rescan, current_version,
}

-- The lock is held.
abbrev pub is_locked : List Event → Bool
is_locked [] = false
is_locked (lock ∷ before) = true
is_locked (unlock ∷ before) = false
is_locked (event ∷ before) = is_locked before

-- The radio is free for the program: the lock is held, and OTBR is down.
abbrev pub IsFree : List Event → Type 0
IsFree log = (is_locked log ≡ true) × (is_down log ≡ true)

-- Every access to the radio (the query of its version, the reset, the flash, the reboot) was
-- made while the radio was free, and every save while the lock was held.
abbrev pub IsSafe : List Event → Type 0
IsSafe [] = Unit
IsSafe (read_version ∷ before) = IsFree before × IsSafe before
IsSafe (reset ∷ before) = IsFree before × IsSafe before
IsSafe (reboot ∷ before) = IsFree before × IsSafe before
IsSafe (flash selector ∷ before) = IsFree before × IsSafe before
IsSafe (save fields ∷ before) = (is_locked before ≡ true) × IsSafe before
IsSafe (event ∷ before) = IsSafe before

-- Inside the lock, and inside the body of `temporarily_stop`.
record InLock (log : List Event) : Type 0 where
  pub safe : IsSafe log
  pub locked : is_locked log ≡ true

record InBody (log : List Event) : Type 0 where
  pub safe : IsSafe log
  pub free : IsFree log

InLock-Stable : Stable InLock
InLock-Stable = record {
  observing = λ state log h. record { safe = h.safe; locked = h.locked };
  stopping = λ log h. record { safe = h.safe; locked = h.locked };
  starting = λ log h. record { safe = h.safe; locked = h.locked };
}

InBody-Owned : Owned InBody
InBody-Owned = record {
  reading = λ log h. record { safe = (h.free, h.safe); free = h.free };
  rebooting = λ log h. record { safe = (h.free, h.safe); free = h.free };
  resetting = λ log h. record { safe = (h.free, h.safe); free = h.free };
  flashing = λ selector log h. record { safe = (h.free, h.safe); free = h.free };
}

in_lock : {log : List Event} → InBody log → InLock log
in_lock h = record { safe = h.safe; locked = h.free.0 }

saving : (fields : Fields) (log : List Event) → InLock log → InLock (save fields ∷ log)
saving fields log h = record { safe = (h.locked, h.safe); locked = h.locked }

module _ {W A : Type 0} {m : M W A} where
  -- A body that keeps `InBody` meets the rule of `temporarily_stop`.
  in_body :
      Keeps InBody m
      → Hoare
          (λ s. InLock s.log × (is_down s.log ≡ true))
          m
          (λ _ s. Unit × InLock s.log)
          (λ _ s. InLock s.log)
  in_body h =
      Hoare-pre (λ s. InBody s.log) _
        (Hoare-post (Keeps-Hoare InBody h) (λ _ s p. (tt, in_lock p)) (λ _ s p. in_lock p))
        (λ s (p, down). record { safe = p.safe; free = (p.locked, down) })

  keeps_lock :
      Hoare (λ s. InLock s.log) m (λ _ s. Unit × InLock s.log) (λ _ s. InLock s.log)
      → Keeps InLock m
  keeps_lock h = record { at = λ s p. ends (m s) (h.at s p) }
    where
      ends :
          (r : Result Failure A × St W)
          → Ends (λ _ s. Unit {0} × InLock s.log) (λ _ s. InLock s.log) r
          → InLock r.1.log
      ends (ok value, s) (returns q) = q.1
      ends (err failure, s) (raises q) = q

module _ {W : Type 0} (env : Environment W) (settings : Settings) (progress : Option (Reporter W))
    (firmware : PreparedFirmware) (selected_target : Bool) where
  await_otbr-Keeps :
      (otbr_was_running : Bool)
      → Keeps InLock (await_otbr env settings progress firmware selected_target otbr_was_running)
  unfolding await_otbr
  await_otbr-Keeps otbr_was_running =
      search
        (step_rules, report_progress-Keeps env settings, require_otbr_healthy-Keeps env settings)
        depth 8

  store_version-Keeps :
      (after : NcpVersion)
      → Keeps InLock (store_version env settings progress firmware selected_target after)
  unfolding store_version
  store_version-Keeps after = search (step_rules, Keeps-write, saving) depth 8

  stopped_update-Keeps :
      (preselected : Option DfuSelector) (otbr_was_running : Bool)
      → Keeps InLock (
          temporarily_stop env otbr (
            replace_firmware env settings progress firmware selected_target preselected
              otbr_was_running))
  stopped_update-Keeps preselected otbr_was_running = keeps_lock (
      temporarily_stop-rule env InLock-Stable (λ _. Unit) otbr _
        (λ was_running. in_body (
          replace_firmware-Keeps env settings progress firmware selected_target InBody-Owned
            preselected otbr_was_running was_running)))

  ends_well :
      (otbr_was_running : Bool) (after : NcpVersion)
      → Keeps InLock (do
        await_otbr env settings progress firmware selected_target otbr_was_running
        store_version env settings progress firmware selected_target after
        report_progress env settings progress (some 100) (codes "Update verified")
        pure after)
  ends_well otbr_was_running after =
      search (step_rules, report_progress-Keeps env settings, await_otbr-Keeps, store_version-Keeps)
        depth 8

  locked_update-Keeps : Keeps InLock (locked_update env settings progress firmware selected_target)
  unfolding locked_update
  locked_update-Keeps =
      Keeps-bind _ _ (selector_if_rcp_is_missing-Keeps env settings selected_target) (λ preselected.
        Keeps-bind _ _ (report_progress-Keeps env settings progress none _) (λ _.
          Keeps-bind _ _ (prepare_safe_update-Keeps env settings InLock-Stable) (λ otbr_was_running.
            Keeps-bind _ _ (stopped_update-Keeps preselected otbr_was_running)
              (λ after. ends_well otbr_was_running after))))

-- Outside the lock.
pub record Outside (log : List Event) : Type 0 where
  pub safe : IsSafe log
  pub unlocked : is_locked log ≡ false

lock-Guards : Guards Outside InLock
lock-Guards = record {
  locking = λ log h. record { safe = h.safe; locked = refl };
  unlocking = λ log h. record { safe = h.safe; unlocked = refl };
}

module _ {W A : Type 0} where
  valued :
      {m : M W A}
      → Keeps InLock m
      → Hoare (λ s. InLock s.log) m (λ _ s. Unit × InLock s.log) (λ _ s. InLock s.log)
  valued h = Hoare-post (Keeps-Hoare InLock h) (λ _ s p. (tt, p)) (λ _ s p. p)

  outcome :
      (m : M W A)
      → Hoare (λ s. Outside s.log) m (λ _ s. Unit × Outside s.log) (λ _ s. Outside s.log)
      → Keeps Outside m
  outcome m h = record { at = λ s p. ends (m s) (h.at s p) }
    where
      ends :
          (r : Result Failure A × St W)
          → Ends (λ _ s. Unit {0} × Outside s.log) (λ _ s. Outside s.log) r
          → Outside r.1.log
      ends (ok value, s) (returns q) = q.1
      ends (err failure, s) (raises q) = q

module _ {W : Type 0} (env : Environment W) (settings : Settings) where
  pub install_prepared-Keeps :
      (progress : Option (Reporter W)) (firmware : PreparedFirmware)
      (selected_target report_validation : Bool)
      → Keeps Outside
          (install_prepared env settings progress firmware selected_target report_validation)
  unfolding install_prepared
  install_prepared-Keeps progress firmware selected_target report_validation =
      Keeps-bind _ _
        (Keeps-if report_validation _ _ (report_progress-Keeps env settings progress none _)
          (Keeps-pure tt))
        (λ _. Keeps-bind _ _ (validate_prepared-Keeps env settings firmware) (λ _. outcome _ (
          with_lock-rule env Outside InLock lock-Guards (λ _. Unit) _
            (valued (locked_update-Keeps env settings progress firmware selected_target)))))

  read_stopped-Keeps :
      (otbr_was_running was_running : Bool)
      → Keeps InBody (read_stopped env settings otbr_was_running was_running)
  unfolding read_stopped
  read_stopped-Keeps otbr_was_running was_running =
      Keeps-bind _ _ (Keeps-raise_if _ rescan_deferred)
        (λ _. spinel_version-Keeps env settings InBody-Owned)

  rescan-Keeps : Keeps InLock (rescan env settings)
  unfolding rescan
  rescan-Keeps =
      Keeps-bind _ _ (prepare_safe_update-Keeps env settings InLock-Stable) (λ otbr_was_running.
        keeps_lock (
          temporarily_stop-rule env InLock-Stable (λ _. Unit) otbr _
            (λ was_running. in_body (read_stopped-Keeps otbr_was_running was_running))))

  deferred-Keeps : (failure : Failure) → Keeps InLock (deferred env settings failure)
  deferred-Keeps (raised preflight noted) = Keeps-raise rescan_deferred
  deferred-Keeps (raised supervisor noted) = Keeps-raise rescan_deferred
  deferred-Keeps (raised update noted) = Keeps-raise rescan_deferred
  deferred-Keeps failure = Keeps-fail failure

  current_version-Keeps : Keeps Outside (current_version env settings)
  unfolding current_version
  current_version-Keeps = outcome _ (
      with_lock-rule env Outside InLock lock-Guards (λ _. Unit) _
        (valued (Keeps-catch _ _ rescan-Keeps deferred-Keeps)))

  -- Whatever the world answers, an installation that starts outside the lock with a safe log ends,
  -- returned or raised, outside the lock and with a safe log: the radio is queried, reset, flashed
  -- and rebooted only while the lock is held and OTBR is down (its last reported state is no running
  -- one and it was not started since), and a state is saved only while the lock is held.
  pub install_prepared-IsSafe :
      (progress : Option (Reporter W)) (firmware : PreparedFirmware)
      (selected_target report_validation : Bool) (s : St W)
      → IsSafe s.log
      → is_locked s.log ≡ false
      → let ended =
          (install_prepared env settings progress firmware selected_target report_validation
            s).1.log in
        IsSafe ended × (is_locked ended ≡ false)
  install_prepared-IsSafe progress firmware selected_target report_validation s safe unlocked =
      let after =
        (install_prepared-Keeps progress firmware selected_target report_validation).at s
          (record { safe = safe; unlocked = unlocked }) in
      (after.safe, after.unlocked)

  -- A rescan of the version that starts outside the lock with a safe log ends, returned or raised,
  -- outside the lock and with a safe log: it queries the radio only while the lock is held and
  -- OTBR is down.
  pub current_version-IsSafe :
      (s : St W)
      → IsSafe s.log
      → is_locked s.log ≡ false
      → let ended = (current_version env settings s).1.log in
        IsSafe ended × (is_locked ended ≡ false)
  current_version-IsSafe s safe unlocked =
      let after = current_version-Keeps.at s (record { safe = safe; unlocked = unlocked }) in
      (after.safe, after.unlocked)
