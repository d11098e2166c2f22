-- ===== src/Operation/Agreement.antt =====
-- Every call on the controller of operation.py keeps its queue, its reservation and the handed
-- out identifiers in agreement.
use ha_nrf52840_ot_rcp_updat.Base.{
  ◌≤◌, ◌≡◌, refl, ◌⊎◌, inl, inr, length, arith, true, List, [], ◌∷◌, Option, none, some,
}
use ha_nrf52840_ot_rcp_updat.Base.Text.{Text, text_eq_iff, text_in-[], text_in-∷}
use ha_nrf52840_ot_rcp_updat.Operation.Command.{FlashCommand, QueuedOperation}
use ha_nrf52840_ot_rcp_updat.Operation.State.{
  new, is_active, record_event, release_active, reset, put_nowait,
}
use ha_nrf52840_ot_rcp_updat.Operation.Controller.{
  reserve, submit, next, wake, start, report_progress, finish, fail, update_runtime,
}
use ha_nrf52840_ot_rcp_updat.Operation.Calls.{
  Call, perform, submits, takes, wakes, starts, reports, finishes, fails, publishes,
}
use ha_nrf52840_ot_rcp_updat.Operation.Bounded.{
  IsWellFormed, new-IsWellFormed, perform-IsWellFormed,
}
use ha_nrf52840_ot_rcp_updat.Operation.System.{
  System, allowed, advance, started, waiting_identifier, Reachable, begin, then, Agrees,
}

begin-Agrees : (id : Text) → Agrees started id
unfolding started new
begin-Agrees id = ground (arith, text_in-[] id)

submit-Agrees :
    (now identifier : Text) (command : FlashCommand) (s : System) (id : Text)
    → IsWellFormed s.controller
    → Agrees s id
    → allowed (submits now identifier command) s ≡ true
    → Agrees (advance (submits now identifier command) s) id
unfolding allowed advance perform submit reserve put_nowait reset record_event
submit-Agrees now identifier command s id v h fresh =
    ground (arith, text_in-∷ id identifier s.issued, text_eq_iff id identifier)

queue-cases :
    (queue : List (Option QueuedOperation))
    → length queue ≤ 1
    → (waiting_identifier queue ≡ none)
      ⊎ ((operation : QueuedOperation) × (queue ≡ some operation ∷ []))
queue-cases [] h = inl refl
queue-cases (none ∷ others) h = inl refl
queue-cases (some operation ∷ []) h = inr (operation, refl)
queue-cases (some operation ∷ other ∷ others) h = absurd (omega arith)

next_empty-queue :
    (queue : List (Option QueuedOperation))
    → length queue ≤ 1
    → waiting_identifier queue ≡ none
    → (queue ≡ []) ⊎ (queue ≡ none ∷ [])
next_empty-queue [] h e = inl refl
next_empty-queue (none ∷ []) h e = inr refl
next_empty-queue (none ∷ other ∷ others) h e = absurd (omega arith)
next_empty-queue (some operation ∷ others) h e = cc

takes-Agrees :
    (s : System) (id : Text) → IsWellFormed s.controller → Agrees s id → Agrees (advance takes s) id
unfolding advance perform next
takes-Agrees s id v h = elim (queue-cases s.controller.queue v.queue_capped) [
  | inl empty ↦ ground (arith, next_empty-queue s.controller.queue v.queue_capped empty)
  | inr (operation, one) ↦
      ground (arith, text_in-∷ id operation.identifier s.taken, text_eq_iff id operation.identifier)
]

wakes-Agrees : (s : System) (id : Text) → Agrees s id → Agrees (advance wakes s) id
unfolding advance perform wake put_nowait
wakes-Agrees s id h = ground arith

starts-Agrees :
    (now : Text) (operation : QueuedOperation) (s : System) (id : Text)
    → Agrees s id
    → Agrees (advance (starts now operation) s) id
unfolding advance perform start record_event
starts-Agrees now operation s id h = ground arith

reports-Agrees :
    (now : Text) (operation : QueuedOperation) (percentage : _) (stage : Text) (s : System)
    (id : Text)
    → Agrees s id
    → Agrees (advance (reports now operation percentage stage) s) id
unfolding advance perform report_progress record_event
reports-Agrees now operation percentage stage s id h = ground arith

finishes-Agrees :
    (now : Text) (operation : QueuedOperation) (message : Text) (s : System) (id : Text)
    → Agrees s id
    → allowed (finishes now operation message) s ≡ true
    → Agrees (advance (finishes now operation message) s) id
unfolding allowed advance perform finish is_active release_active record_event
finishes-Agrees now operation message s id h known =
    ground (arith, text_eq_iff id operation.identifier)

fails-Agrees :
    (now : Text) (operation : QueuedOperation) (message : Text) (s : System) (id : Text)
    → Agrees s id
    → allowed (fails now operation message) s ≡ true
    → Agrees (advance (fails now operation message) s) id
unfolding allowed advance perform fail is_active release_active record_event
fails-Agrees now operation message s id h known =
    ground (arith, text_eq_iff id operation.identifier)

publishes-Agrees :
    (installed : _) (release : _) (releases : _) (problem : _) (diagnostics : _) (s : System)
    (id : Text)
    → Agrees s id
    → Agrees (advance (publishes installed release releases problem diagnostics) s) id
unfolding advance perform update_runtime
publishes-Agrees installed release releases problem diagnostics s id h = ground arith

pub calls-Agrees :
    (call : Call) (s : System) (id : Text)
    → IsWellFormed s.controller
    → Agrees s id
    → allowed call s ≡ true
    → Agrees (advance call s) id
calls-Agrees (submits now identifier command) s id v h known =
    submit-Agrees now identifier command s id v h known
calls-Agrees takes s id v h known = takes-Agrees s id v h
calls-Agrees wakes s id v h known = wakes-Agrees s id h
calls-Agrees (starts now operation) s id v h known = starts-Agrees now operation s id h
calls-Agrees (reports now operation percentage stage) s id v h known =
    reports-Agrees now operation percentage stage s id h
calls-Agrees (finishes now operation message) s id v h known =
    finishes-Agrees now operation message s id h known
calls-Agrees (fails now operation message) s id v h known =
    fails-Agrees now operation message s id h known
calls-Agrees (publishes installed release releases problem diagnostics) s id v h known =
    publishes-Agrees installed release releases problem diagnostics s id h

-- In every reachable state the controller is well formed.
pub Reachable-IsWellFormed : {s : System} → Reachable s → IsWellFormed s.controller
unfolding started advance
Reachable-IsWellFormed begin = new-IsWellFormed
Reachable-IsWellFormed (then call before known) =
    perform-IsWellFormed call _ (Reachable-IsWellFormed before)

-- In every reachable state the queue, the reservation and the identifiers agree.
pub Reachable-Agrees : {s : System} → Reachable s → (id : Text) → Agrees s id
Reachable-Agrees begin id = begin-Agrees id
Reachable-Agrees (then call before known) id =
    calls-Agrees call _ id (Reachable-IsWellFormed before) (Reachable-Agrees before id) known
