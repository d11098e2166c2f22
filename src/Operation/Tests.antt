-- ===== src/Operation/Tests.antt =====
-- Runs of the controller of operation.py, and the theorems at states that meet their hypotheses.
use ha_nrf52840_ot_rcp_updat.Base.{
  ◌≡◌, refl, ◌⊎◌, ◌↔◌, arith, true, false, List, [], ◌∷◌, ◌++◌, none, some, ok, err, All,
}
use ha_nrf52840_ot_rcp_updat.Base.Int.{ℤ, pos}
use ha_nrf52840_ot_rcp_updat.Base.Text.{Text, codes, text_eq, text_in}
use ha_nrf52840_ot_rcp_updat.Models.Value.{end}
use ha_nrf52840_ot_rcp_updat.Models.Firmware.{FirmwareRelease}
use ha_nrf52840_ot_rcp_updat.Operation.Command.{
  FlashCommand, QueuedOperation, install_latest, install_prepared, post_init, unsupported_source,
  missing_artifact, queue_unavailable, progress_out_of_range,
}
use ha_nrf52840_ot_rcp_updat.Operation.State.{
  Controller, new, is_active, record_event, release_active, reset, put_nowait,
}
use ha_nrf52840_ot_rcp_updat.Operation.Controller.{
  reserve, submit, next, wake, start, report_progress, finish, fail, update_runtime, release_for,
}
use ha_nrf52840_ot_rcp_updat.Operation.Calls.{perform, submits, takes, starts, finishes}
use ha_nrf52840_ot_rcp_updat.Operation.Bounded.{
  IsWellFormed, new-IsWellFormed, perform-IsWellFormed,
}
use ha_nrf52840_ot_rcp_updat.Operation.System.{
  System, allowed, advance, started, waiting_identifier, Reachable, begin, then, Reaches, here,
  later,
}
use ha_nrf52840_ot_rcp_updat.Operation.Admission.{Reachable-next_once, Reachable-busy_held}
use ha_nrf52840_ot_rcp_updat.Operation.Stale.{HasEnded, Reaches-stale_ignored}
use ha_nrf52840_ot_rcp_updat.Operation.Worker.{
  IsReady, IsCompleted, IsBroken, picked, submit_iff, next-wake, submit-next-finish,
  release_for-update_runtime,
}

abbrev from_mqtt : FlashCommand
from_mqtt = record {
  operation_type = install_latest;
  source = codes "mqtt";
  prepared = none;
  cleanup_path = none;
}

abbrev noon : Text
noon = codes "2026-01-01T12:00:00+00:00"

abbrev first_id : Text
first_id = codes "a1"

abbrev second_id : Text
second_id = codes "b2"

abbrev first_operation : QueuedOperation
first_operation = record { identifier = first_id; command = from_mqtt }

rejected_commands :
    (post_init (record from_mqtt { source = codes "web" }) ≡ err unsupported_source)
    × (post_init (record from_mqtt { operation_type = install_prepared }) ≡ err missing_artifact)
unfolding post_init text_in text_eq
rejected_commands = (refl, refl)

-- `wake` fills the queue of an idle controller, and the next command is refused.
wake_refuses : (submit noon first_id from_mqtt (wake new)).0 ≡ err queue_unavailable
unfolding submit reserve put_nowait wake new reset record_event
wake_refuses = refl

negative_progress :
    (report_progress noon first_operation (some (ℤ.negsuc 0)) [] new).0 ≡ err progress_out_of_range
unfolding report_progress
negative_progress = refl

new-IsReady : IsReady new
unfolding new
new-IsReady = ground arith

perform-IsWellFormed_example : IsWellFormed (perform (submits noon first_id from_mqtt) new)
perform-IsWellFormed_example =
    perform-IsWellFormed (submits noon first_id from_mqtt) new new-IsWellFormed

abbrev submitted : System
submitted = advance (submits noon first_id from_mqtt) started

submitted-Reachable : Reachable submitted
unfolding allowed started text_in
submitted-Reachable = then (submits noon first_id from_mqtt) begin refl

next-submitted : (next submitted.controller).0 ≡ some first_operation
unfolding next advance perform started new submit reserve put_nowait record_event
next-submitted = refl

Reachable-next_once_example :
    (submitted.controller.active_identifier ≡ some first_id)
    × (submitted.controller.busy ≡ true)
    × (text_in first_id submitted.taken ≡ false)
Reachable-next_once_example = Reachable-next_once submitted-Reachable next-submitted

submitted_busy : submitted.controller.busy ≡ true
unfolding advance perform started new submit reserve put_nowait record_event
submitted_busy = refl

Reachable-busy_held_example :
    (id : Text) × (submitted.controller.active_identifier ≡ some id)
    × ((waiting_identifier submitted.controller.queue ≡ some id)
        ⊎ (text_in id submitted.taken ≡ true))
Reachable-busy_held_example = Reachable-busy_held submitted-Reachable submitted_busy

abbrev working : System
working = advance (starts noon first_operation) (advance takes submitted)

abbrev ended : System
ended = advance (finishes noon first_operation (codes "Update verified")) working

working-Reachable : Reachable working
unfolding allowed started advance perform new submit reserve put_nowait record_event next text_in
    text_eq
working-Reachable = then (starts noon first_operation) (then takes submitted-Reachable refl) refl

ended-Reachable : Reachable ended
unfolding allowed started advance perform new submit reserve put_nowait record_event next text_in
    text_eq
ended-Reachable =
    then (finishes noon first_operation (codes "Update verified")) working-Reachable refl

first-HasEnded : HasEnded first_id ended
unfolding allowed started advance perform new submit reserve put_nowait record_event next text_in
    text_eq is_active start finish release_active
first-HasEnded = record { was_taken = refl; inactive = refl }

-- A second command runs, and the first worker still reports.
ended-Reaches : Reaches ended (advance (submits noon second_id from_mqtt) ended)
unfolding allowed started advance perform text_in text_eq
ended-Reaches = later (submits noon second_id from_mqtt) here refl

abbrev second_runs : Controller
second_runs = (advance (submits noon second_id from_mqtt) ended).controller

Reaches-stale_ignored_example :
    (start noon first_operation second_runs ≡ second_runs)
    × ((report_progress noon first_operation (some (pos 50)) [] second_runs).1 ≡ second_runs)
    × (finish noon first_operation [] second_runs ≡ second_runs)
    × (fail noon first_operation [] second_runs ≡ second_runs)
Reaches-stale_ignored_example =
    Reaches-stale_ignored first_operation ended-Reachable first-HasEnded ended-Reaches noon []
      (some (pos 50))

submit_iff_example : ((submit noon first_id from_mqtt new).0 ≡ ok first_id) ↔ IsReady new
submit_iff_example = submit_iff noon first_id from_mqtt new

next-wake_example : next (wake new) ≡ next new
next-wake_example = next-wake new

submit-next-finish_example :
    ((picked noon first_id from_mqtt new).0 ≡ some first_operation)
    × IsCompleted (
        finish noon first_operation []
          (start noon first_operation (picked noon first_id from_mqtt new).1))
    × IsBroken [] (
        fail noon first_operation []
          (start noon first_operation (picked noon first_id from_mqtt new).1))
submit-next-finish_example = submit-next-finish noon first_id [] from_mqtt new new-IsReady

abbrev release : FirmwareRelease
release = record {
  hardware = codes "pca10059";
  ncs_version = codes "3.1.0";
  zephyr_version = codes "4.1.99";
  dfu_application_version = 30109999;
  artifact = record { url = []; sha256 = []; filename = []; signature_url = [] };
  release_url = [];
  release_summary = [];
}

abbrev published : Controller
published = update_runtime end none (release ∷ []) none end new

release_for-update_runtime_example :
    ((found : FirmwareRelease) × (before after : List FirmwareRelease) × (release_for
          (codes "3.1.0")
          published
        ≡ some found)
      × ((release ∷ []) ≡ before ++ found ∷ after)
      × (found.ncs_version ≡ codes "3.1.0")
      × All (λ (other : FirmwareRelease). text_eq other.ncs_version (codes "3.1.0") ≡ false) before)
    ⊎ ((release_for (codes "3.1.0") published ≡ none)
        × All
            (λ (other : FirmwareRelease). text_eq other.ncs_version (codes "3.1.0") ≡ false)
            (release ∷ []))
release_for-update_runtime_example =
    release_for-update_runtime (codes "3.1.0") end end none (release ∷ []) none new
