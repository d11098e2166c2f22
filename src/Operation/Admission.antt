-- ===== src/Operation/Admission.antt =====
-- At most one operation is in flight on the controller of operation.py, and none is lost.
use ha_nrf52840_ot_rcp_updat.Base.{◌≡◌, ◌⊎◌, inl, inr, Option-cases, arith, true, false, some}
use ha_nrf52840_ot_rcp_updat.Base.Text.{Text, text_in}
use ha_nrf52840_ot_rcp_updat.Operation.Command.{QueuedOperation}
use ha_nrf52840_ot_rcp_updat.Operation.State.{Controller}
use ha_nrf52840_ot_rcp_updat.Operation.Controller.{next}
use ha_nrf52840_ot_rcp_updat.Operation.System.{System, waiting_identifier, Reachable}
use ha_nrf52840_ot_rcp_updat.Operation.Agreement.{Reachable-IsWellFormed, Reachable-Agrees}

next-waiting :
    (c : Controller) {operation : QueuedOperation}
    → (next c).0 ≡ some operation
    → waiting_identifier c.queue ≡ some operation.identifier
unfolding next
next-waiting c h = ground arith

-- In every reachable state, the operation that `next` returns is the active one, the controller
-- is busy, and `next` has never returned that identifier before.
pub Reachable-next_once :
    {s : System} {operation : QueuedOperation}
    → Reachable s
    → (next s.controller).0 ≡ some operation
    → (s.controller.active_identifier ≡ some operation.identifier)
      × (s.controller.busy ≡ true)
      × (text_in operation.identifier s.taken ≡ false)
Reachable-next_once {s} {operation} reach h =
    let waiting = next-waiting s.controller h in
    let agrees = Reachable-Agrees reach operation.identifier in
    let valid = Reachable-IsWellFormed reach in ground arith

-- In every reachable state a busy controller has an active identifier, whose operation is still
-- in the queue or was returned by `next`.
pub Reachable-busy_held :
    {s : System}
    → Reachable s
    → s.controller.busy ≡ true
    → (id : Text) × (s.controller.active_identifier ≡ some id)
      × ((waiting_identifier s.controller.queue ≡ some id) ⊎ (text_in id s.taken ≡ true))
Reachable-busy_held {s} reach h = elim (Option-cases s.controller.active_identifier) [
  | inl e ↦ absurd (let valid = Reachable-IsWellFormed reach in ground arith)
  | inr (id, e) ↦ (id, e, (Reachable-Agrees reach id).active_held e)
]
