-- ===== src/Operation/System.antt =====
-- The threads of the program around one `OperationController` of operation.py: MQTT and Ingress
-- submit, the main thread takes operations and reports on those that it has taken. `issued` and
-- `taken` hold the identifiers drawn by `submit` and those handed out by `next`.
use ha_nrf52840_ot_rcp_updat.Base.{
  ◌≡◌, ◌⊎◌, Bool, true, false, not, List, [], ◌∷◌, Option, none, some,
}
use ha_nrf52840_ot_rcp_updat.Base.Text.{Text, text_in}
use ha_nrf52840_ot_rcp_updat.Operation.Command.{QueuedOperation}
use ha_nrf52840_ot_rcp_updat.Operation.State.{Controller, new}
use ha_nrf52840_ot_rcp_updat.Operation.Calls.{
  Call, perform, submits, takes, starts, reports, finishes, fails,
}

pub record System : Type 0 where
  pub controller : Controller
  pub issued : List Text
  pub taken : List Text

-- `submit` draws an identifier that was not drawn before, and only an operation that `next` has
-- returned is reported on.
unfoldable pub allowed : Call → System → Bool
allowed (submits now identifier command) s = not (text_in identifier s.issued)
allowed (starts now operation) s = text_in operation.identifier s.taken
allowed (reports now operation percentage stage) s = text_in operation.identifier s.taken
allowed (finishes now operation message) s = text_in operation.identifier s.taken
allowed (fails now operation message) s = text_in operation.identifier s.taken
allowed other s = true

abbrev pub waiting_identifier : List (Option QueuedOperation) → Option Text
waiting_identifier [] = none
waiting_identifier (none ∷ others) = none
waiting_identifier (some operation ∷ others) = some operation.identifier

abbrev pub now_issued : Call → List Text → List Text
now_issued (submits now identifier command) issued = identifier ∷ issued
now_issued other issued = issued

abbrev pub now_taken : Call → Controller → List Text → List Text
now_taken takes c taken = elim (waiting_identifier c.queue) [
  | none ↦ taken
  | some identifier ↦ identifier ∷ taken
]
now_taken other c taken = taken

unfoldable pub advance : Call → System → System
advance call s = record {
  controller = perform call s.controller;
  issued = now_issued call s.issued;
  taken = now_taken call s.controller s.taken;
}

unfoldable pub started : System
started = record { controller = new; issued = []; taken = [] }

-- The states that some order of allowed calls reaches.
pub data Reachable : System → Type 0 where
  begin : Reachable started
  then :
      {s : System} (call : Call) → Reachable s → allowed call s ≡ true → Reachable (advance call s)

-- How the queue and the reservation agree at one identifier.
pub record Agrees (s : System) (identifier : Text) : Type 0 where
  pub waiting_active :
      waiting_identifier s.controller.queue ≡ some identifier
      → s.controller.active_identifier ≡ some identifier
  pub waiting_fresh :
      waiting_identifier s.controller.queue ≡ some identifier → text_in identifier s.taken ≡ false
  pub active_issued :
      s.controller.active_identifier ≡ some identifier → text_in identifier s.issued ≡ true
  pub taken_issued : text_in identifier s.taken ≡ true → text_in identifier s.issued ≡ true
  pub active_held :
      s.controller.active_identifier ≡ some identifier
      → (waiting_identifier s.controller.queue ≡ some identifier)
        ⊎ (text_in identifier s.taken ≡ true)

-- The states that more allowed calls reach from a state.
pub data Reaches : System → System → Type 0 where
  here : {s : System} → Reaches s s
  later :
      {s t : System} (call : Call)
      → Reaches s t
      → allowed call t ≡ true
      → Reaches s (advance call t)
