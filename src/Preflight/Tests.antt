-- ===== src/Preflight/Tests.antt =====
-- Responses of OTBR on which preflight.py is run.
use ha_nrf52840_ot_rcp_updat.Base.{◌+◌, ◌≡◌, ◌↔◌, ◌&&◌, ℕ, refl, ok, err, leb, ltb, if◌then◌else◌}
use ha_nrf52840_ot_rcp_updat.Base.Text.{codes, text_eq, text_in}
use ha_nrf52840_ot_rcp_updat.Models.Value.{Value, text, arr, obj, nil, cons, Fields, end, field}
use ha_nrf52840_ot_rcp_updat.Preflight.Actions.{
  started_work, objects, unwrap, as_array, listed, is_member, status_of, type_of, is_busy,
  busy_actions,
}
use ha_nrf52840_ot_rcp_updat.Preflight.Window.{
  Run, PreflightResult, actions, quiet_actions, require_quiet_management_window,
}
use ha_nrf52840_ot_rcp_updat.Preflight.Quiet.{IsQuiet, require_quiet_management_window_iff}

abbrev scan : Value → Fields
scan status =
    field (codes "type") (text (codes "getEnergyScanTask"))
      (field (codes "attributes") (obj (field (codes "status") status end)) end)

abbrev response : Fields → Value
response action = obj (field (codes "data") (arr (cons (obj action) nil)) end)

abbrev done : Fields
done = scan (text (codes "completed"))

abbrev running : Fields
running = scan (text (codes "active"))

-- A scan runs from second 5 to second 15; a request takes a second.
abbrev request : Run ℕ Value
request t = (ok (response (if leb 5 t && ltb t 15 then running else done)), t + 1)

abbrev sleep : ℕ → ℕ → ℕ
sleep seconds t = t + seconds

abbrev seen : PreflightResult
seen = record { quiet_window = 20; actions_checked = 2 }

quiet_window_passes : require_quiet_management_window request sleep 20 0 ≡ (ok seen, 22)
unfolding require_quiet_management_window quiet_actions actions listed unwrap as_array objects
    busy_actions is_busy is_member status_of type_of text_in text_eq
quiet_window_passes = refl

started_rejected : require_quiet_management_window request sleep 10 0 ≡ (err started_work, 12)
unfolding require_quiet_management_window quiet_actions actions listed unwrap as_array objects
    busy_actions is_busy is_member status_of type_of text_in text_eq
started_rejected = refl

require_quiet_management_window_iff_example :
    (require_quiet_management_window request sleep 20 0 ≡ (ok seen, 22))
    ↔ IsQuiet request sleep 20 0 22 seen
require_quiet_management_window_iff_example =
    require_quiet_management_window_iff request sleep 20 0 22 seen
