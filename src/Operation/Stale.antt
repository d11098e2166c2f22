-- ===== src/Operation/Stale.antt =====
-- An operation that has ended on the controller of operation.py changes nothing any more.
use ha_nrf52840_ot_rcp_updat.Base.{◌≡◌, inl, inr, Option-cases, arith, true, false, Option}
use ha_nrf52840_ot_rcp_updat.Base.Int.{ℤ}
use ha_nrf52840_ot_rcp_updat.Base.Text.{Text, text_eq_iff, text_in, text_in-∷}
use ha_nrf52840_ot_rcp_updat.Operation.Command.{FlashCommand, QueuedOperation}
use ha_nrf52840_ot_rcp_updat.Operation.State.{
  is_active, record_event, release_active, reset, put_nowait,
}
use ha_nrf52840_ot_rcp_updat.Operation.Controller.{
  reserve, submit, next, wake, start, report_progress, finish, fail, update_runtime,
}
use ha_nrf52840_ot_rcp_updat.Operation.Calls.{
  Call, perform, submits, takes, wakes, starts, reports, finishes, fails, publishes,
}
use ha_nrf52840_ot_rcp_updat.Operation.System.{
  System, allowed, advance, waiting_identifier, Reachable, then, Agrees, Reaches, here, later,
}
use ha_nrf52840_ot_rcp_updat.Operation.Agreement.{Reachable-Agrees}

-- `next` has returned this identifier, and it is not active.
pub record HasEnded (identifier : Text) (s : System) : Type 0 where
  pub was_taken : text_in identifier s.taken ≡ true
  pub inactive : is_active identifier s.controller ≡ false

submit-HasEnded :
    (now identifier : Text) (command : FlashCommand) (s : System) (id : Text)
    → Agrees s id
    → allowed (submits now identifier command) s ≡ true
    → HasEnded id s
    → HasEnded id (advance (submits now identifier command) s)
unfolding allowed advance perform submit reserve put_nowait reset record_event is_active
submit-HasEnded now identifier command s id h fresh ended =
    ground (arith, text_eq_iff identifier id)

takes-HasEnded : (s : System) (id : Text) → HasEnded id s → HasEnded id (advance takes s)
unfolding advance perform next is_active
takes-HasEnded s id ended = elim (Option-cases (waiting_identifier s.controller.queue)) [
  | inl e ↦ ground arith
  | inr (other, e) ↦ ground (arith, text_in-∷ id other s.taken)
]

calls-HasEnded :
    (call : Call) (s : System) (id : Text)
    → Agrees s id
    → allowed call s ≡ true
    → HasEnded id s
    → HasEnded id (advance call s)
unfolding advance perform wake put_nowait start report_progress finish fail update_runtime
    record_event release_active is_active
calls-HasEnded (submits now identifier command) s id h known ended =
    submit-HasEnded now identifier command s id h known ended
calls-HasEnded takes s id h known ended = takes-HasEnded s id ended
calls-HasEnded wakes s id h known ended = ground arith
calls-HasEnded (starts now operation) s id h known ended = ground arith
calls-HasEnded (reports now operation percentage stage) s id h known ended = ground arith
calls-HasEnded (finishes now operation message) s id h known ended = ground arith
calls-HasEnded (fails now operation message) s id h known ended = ground arith
calls-HasEnded (publishes installed release releases problem diagnostics) s id h known ended =
    ground arith

Reaches-Reachable : {s t : System} → Reachable s → Reaches s t → Reachable t
Reaches-Reachable reach here = reach
Reaches-Reachable reach (later call path known) = then call (Reaches-Reachable reach path) known

Reaches-HasEnded :
    {s t : System} (id : Text) → Reachable s → Reaches s t → HasEnded id s → HasEnded id t
Reaches-HasEnded id reach here ended = ended
Reaches-HasEnded id reach (later call path known) ended =
    calls-HasEnded call _ id (Reachable-Agrees (Reaches-Reachable reach path) id) known
      (Reaches-HasEnded id reach path ended)

-- When `next` has returned an operation that is no longer active, then in every state that any
-- further calls reach, starting, reporting, completing and failing it leave the controller as it
-- is.
pub Reaches-stale_ignored :
    {s t : System} (operation : QueuedOperation)
    → Reachable s
    → HasEnded operation.identifier s
    → Reaches s t
    → (now message : Text) (percentage : Option ℤ)
    → (start now operation t.controller ≡ t.controller)
      × ((report_progress now operation percentage message t.controller).1 ≡ t.controller)
      × (finish now operation message t.controller ≡ t.controller)
      × (fail now operation message t.controller ≡ t.controller)
unfolding start report_progress finish fail
Reaches-stale_ignored operation reach ended path now message percentage =
    let still = (Reaches-HasEnded operation.identifier reach path ended).inactive in
    (ground arith, ground arith, ground arith, ground arith)
