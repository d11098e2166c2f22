-- ===== src/Operation/Calls.antt =====
-- The calls that threads make on the `OperationController` of operation.py, as values.
use ha_nrf52840_ot_rcp_updat.Base.{List, Option}
use ha_nrf52840_ot_rcp_updat.Base.Int.{ℤ}
use ha_nrf52840_ot_rcp_updat.Base.Text.{Text}
use ha_nrf52840_ot_rcp_updat.Models.Value.{Fields}
use ha_nrf52840_ot_rcp_updat.Models.Firmware.{FirmwareRelease}
use ha_nrf52840_ot_rcp_updat.Operation.Command.{FlashCommand, QueuedOperation}
use ha_nrf52840_ot_rcp_updat.Operation.State.{Controller}
use ha_nrf52840_ot_rcp_updat.Operation.Controller.{
  submit, next, wake, start, report_progress, finish, fail, update_runtime,
}

-- A call with its arguments. The first text is the time of the call, and the second one of
-- `submits` the identifier that is drawn.
pub data Call : Type 0 where
  submits : Text → Text → FlashCommand → Call
  takes : Call
  wakes : Call
  starts : Text → QueuedOperation → Call
  reports : Text → QueuedOperation → Option ℤ → Text → Call
  finishes : Text → QueuedOperation → Text → Call
  fails : Text → QueuedOperation → Text → Call
  publishes : Fields → Option FirmwareRelease → List FirmwareRelease → Option Text → Fields → Call

unfoldable pub perform : Call → Controller → Controller
perform (submits now identifier command) c = (submit now identifier command c).1
perform takes c = (next c).1
perform wakes c = wake c
perform (starts now operation) c = start now operation c
perform (reports now operation percentage stage) c =
    (report_progress now operation percentage stage c).1
perform (finishes now operation message) c = finish now operation message c
perform (fails now operation message) c = fail now operation message c
perform (publishes installed release releases problem diagnostics) c =
    update_runtime installed release releases problem diagnostics c
