-- ===== src/Operation/Worker.antt =====
-- What the methods of the controller of operation.py do one after the other.
use ha_nrf52840_ot_rcp_updat.Base.{
  ◌≡◌, refl, ap, ◌⊎◌, inl, inr, ◌↔◌, arith, Bool-cases, Option-cases, true, false, List, [], ◌∷◌,
  ◌++◌, Option, none, some, ok, All,
}
use ha_nrf52840_ot_rcp_updat.Base.Int.{pos}
use ha_nrf52840_ot_rcp_updat.Base.Text.{Text, text_eq, text_eq_iff}
use ha_nrf52840_ot_rcp_updat.Models.Value.{Fields}
use ha_nrf52840_ot_rcp_updat.Models.Firmware.{FirmwareRelease}
use ha_nrf52840_ot_rcp_updat.Operation.Command.{FlashCommand, QueuedOperation}
use ha_nrf52840_ot_rcp_updat.Operation.State.{
  Controller, complete, failed, is_active, safe_message, record_event, release_active, reset,
  put_nowait,
}
use ha_nrf52840_ot_rcp_updat.Operation.Controller.{
  reserve, submit, next, wake, start, finish, fail, update_runtime, release_for, first_release,
}

pub record IsReady (c : Controller) : Type 0 where
  pub not_busy : c.busy ≡ false
  pub empty_queue : c.queue ≡ []

-- A command is accepted, under the identifier drawn for it, exactly when the controller is not
-- busy and its queue is empty.
pub submit_iff :
    (now identifier : Text) (command : FlashCommand) (c : Controller)
    → ((submit now identifier command c).0 ≡ ok identifier) ↔ IsReady c
unfolding submit reserve put_nowait reset record_event
submit_iff now identifier command c = ground arith

-- Waking the worker never takes an operation from it: the next item and the controller behind it
-- are those without the call, whatever the queue holds.
pub next-wake : (c : Controller) → next (wake c) ≡ next c
unfolding next wake put_nowait
next-wake c = ground arith

abbrev pub accepted : Text → FlashCommand → QueuedOperation
accepted identifier command = record { identifier = identifier; command = command }

abbrev pub picked : Text → Text → FlashCommand → Controller → Option QueuedOperation × Controller
picked now identifier command c = next (submit now identifier command c).1

-- The worker has this operation in hand, and it is the active one.
record Holds (operation : QueuedOperation) (c : Controller) : Type 0 where
  pub active : is_active operation.identifier c ≡ true
  pub nothing_waits : c.queue ≡ []
  pub no_error : c.error ≡ none

next-submit-Holds :
    (now identifier : Text) (command : FlashCommand) (c : Controller)
    → IsReady c
    → ((picked now identifier command c).0 ≡ some (accepted identifier command))
      × Holds (accepted identifier command) (picked now identifier command c).1
unfolding submit reserve put_nowait next is_active record_event
next-submit-Holds now identifier command c ready =
    ground (arith, (text_eq_iff identifier identifier).1 refl)

start-Holds :
    (now : Text) (operation : QueuedOperation) (c : Controller)
    → Holds operation c
    → Holds operation (start now operation c)
unfolding start is_active record_event
start-Holds now operation c held = ground arith

pub record IsCompleted (c : Controller) : Type 0 where
  pub ready : IsReady c
  pub state_complete : c.state ≡ complete
  pub full : c.progress ≡ some (pos 100)
  pub without_error : c.error ≡ none

pub record IsBroken (message : Text) (c : Controller) : Type 0 where
  pub ready : IsReady c
  pub state_failed : c.state ≡ failed
  pub reason : c.error ≡ some (safe_message message)

finish-IsCompleted :
    (now message : Text) (operation : QueuedOperation) (c : Controller)
    → Holds operation c
    → IsCompleted (finish now operation message c)
unfolding finish record_event release_active
finish-IsCompleted now message operation c held = ground arith

fail-IsBroken :
    (now message : Text) (operation : QueuedOperation) (c : Controller)
    → Holds operation c
    → IsBroken message (fail now operation message c)
unfolding fail record_event release_active
fail-IsBroken now message operation c held = ground arith

-- From a ready controller the worker gets exactly the submitted command. When it has started it,
-- completing it ends in the state `complete` at 100 percent without an error, failing it in the
-- state `failed` with the cleaned message, and the controller is ready again in both cases.
pub submit-next-finish :
    (now identifier message : Text) (command : FlashCommand) (c : Controller)
    → IsReady c
    → ((picked now identifier command c).0 ≡ some (accepted identifier command))
      × IsCompleted (
          finish now
            (accepted identifier command)
            message
            (start now (accepted identifier command) (picked now identifier command c).1))
      × IsBroken message (
          fail now
            (accepted identifier command)
            message
            (start now (accepted identifier command) (picked now identifier command c).1))
submit-next-finish now identifier message command c ready =
    let got = next-submit-Holds now identifier command c ready in
    let held = start-Holds now (accepted identifier command) _ got.1 in
    (got.0, finish-IsCompleted now message _ _ held, fail-IsBroken now message _ _ held)

first_release-found :
    (ncs_version : Text) (releases : List FirmwareRelease) (release : FirmwareRelease)
    → first_release ncs_version releases ≡ some release
    → (before after : List FirmwareRelease) × (releases ≡ before ++ release ∷ after)
      × (release.ncs_version ≡ ncs_version)
      × All (λ (other : FirmwareRelease). text_eq other.ncs_version ncs_version ≡ false) before
first_release-found ncs_version [] release h = cc
first_release-found ncs_version (first ∷ others) release h =
    elim (Bool-cases (text_eq first.ncs_version ncs_version)) [
      | inl same ↦
          ([], others, ground arith, ground (arith, text_eq_iff first.ncs_version ncs_version), tt)
      | inr differs ↦
          let (before, after, cut, named, none_before) =
            first_release-found ncs_version others release (ground arith) in
          (first ∷ before, after, ap (λ rest. first ∷ rest) cut, named, (differs, none_before))
    ]

first_release-none :
    (ncs_version : Text) (releases : List FirmwareRelease)
    → first_release ncs_version releases ≡ none
    → All (λ (other : FirmwareRelease). text_eq other.ncs_version ncs_version ≡ false) releases
first_release-none ncs_version [] h = tt
first_release-none ncs_version (first ∷ others) h =
    (ground arith, first_release-none ncs_version others (ground arith))

-- A release is looked up in what was published last: either it is the first one with this
-- version, or no published release has the version.
pub release_for-update_runtime :
    (ncs_version : Text) (installed diagnostics : Fields) (release : Option FirmwareRelease)
    (releases : List FirmwareRelease) (problem : Option Text) (c : Controller)
    → ((found : FirmwareRelease) × (before after : List FirmwareRelease) × (release_for ncs_version
            (update_runtime installed release releases problem diagnostics c)
          ≡ some found)
        × (releases ≡ before ++ found ∷ after)
        × (found.ncs_version ≡ ncs_version)
        × All (λ (other : FirmwareRelease). text_eq other.ncs_version ncs_version ≡ false) before)
      ⊎ ((release_for ncs_version (update_runtime installed release releases problem diagnostics c)
            ≡ none)
          × All
              (λ (other : FirmwareRelease). text_eq other.ncs_version ncs_version ≡ false)
              releases)
unfolding release_for update_runtime
release_for-update_runtime ncs_version installed diagnostics release releases problem c =
    elim (Option-cases (first_release ncs_version releases)) [
      | inl e ↦ inr (e, first_release-none ncs_version releases e)
      | inr (found, e) ↦
          let (before, after, cut, named, differ) =
            first_release-found ncs_version releases found e in
          inl (found, before, after, e, cut, named, differ)
    ]
