-- ===== src/Operation/Controller.antt =====
-- The public methods of `OperationController`.
use ha_nrf52840_ot_rcp_updat.Base.{
  Bool, true, not, ◌&&◌, List, [], ◌∷◌, Option, none, some, Result, ok, err, if◌then◌else◌,
}
use ha_nrf52840_ot_rcp_updat.Base.Int.{ℤ, pos, leb_ℤ}
use ha_nrf52840_ot_rcp_updat.Base.Text.{Text, codes, text_eq}
use ha_nrf52840_ot_rcp_updat.Models.Value.{Fields}
use ha_nrf52840_ot_rcp_updat.Models.Firmware.{FirmwareRelease}
use ha_nrf52840_ot_rcp_updat.Operation.Command.{
  OperationError, already_active, queue_unavailable, progress_out_of_range, FlashCommand,
  QueuedOperation,
}
use ha_nrf52840_ot_rcp_updat.Operation.State.{
  Controller, queued, running, complete, failed, is_active, safe_message, record_event,
  release_active, reset, put_nowait,
}

-- What `submit` sets before it uses the queue.
unfoldable pub reserve : Text → Text → FlashCommand → Controller → Controller
reserve now identifier command c = record_event now (codes "Operation accepted") (record c {
  busy = true;
  active_identifier = some identifier;
  state = queued;
  stage = codes "Waiting for the hardware worker";
  progress = none;
  source = some command.source;
  error = none;
  events = [];
})

unfoldable pub submit :
    Text → Text → FlashCommand → Controller → Result OperationError Text × Controller
submit now identifier command c =
    let reserved = reserve now identifier command c in
    if c.busy
    then (err already_active, c)
    else (elim (put_nowait (some (record { identifier = identifier; command = command }))
        reserved.queue) [
          | none ↦ (err queue_unavailable, reset reserved)
          | some queue ↦ (ok identifier, record reserved { queue = queue })
        ])

-- What the queue holds when the wait of `next` ends.
unfoldable pub next : Controller → Option QueuedOperation × Controller
next c = elim c.queue [ [] ↦ (none, c) | item ∷ later ↦ (item, record c { queue = later }) ]

unfoldable pub wake : Controller → Controller
wake c = elim (put_nowait none c.queue) [ none ↦ c | some queue ↦ record c { queue = queue } ]

unfoldable pub start : Text → QueuedOperation → Controller → Controller
start now operation c =
    if not (is_active operation.identifier c)
    then c
    else record_event now (codes "Hardware operation started")
        (record c { state = running; stage = codes "Validating firmware" })

abbrev pub in_range : Option ℤ → Bool
in_range none = true
in_range (some percentage) = leb_ℤ (pos 0) percentage && leb_ℤ percentage (pos 100)

unfoldable pub report_progress :
    Text
    → QueuedOperation
    → Option ℤ
    → Text
    → Controller
    → Result OperationError (Unit {0}) × Controller
report_progress now operation percentage stage c =
    if not (in_range percentage)
    then (err progress_out_of_range, c)
    else if not (is_active operation.identifier c)
    then (ok tt, c)
    else (
      ok tt,
      record_event now (safe_message stage)
          (record c { state = running; stage = safe_message stage; progress = percentage }),
    )

-- `complete` of the class: the name is that of a state here.
unfoldable pub finish : Text → QueuedOperation → Text → Controller → Controller
finish now operation message c =
    if not (is_active operation.identifier c)
    then c
    else release_active (
        record_event now (safe_message message)
          (record c { state = complete; stage = safe_message message; progress = some (pos 100) }))

-- `fail`, and `cancel`, which only calls it.
unfoldable pub fail : Text → QueuedOperation → Text → Controller → Controller
fail now operation error c =
    if not (is_active operation.identifier c)
    then c
    else release_active (
        record_event now (safe_message error)
          (record c { state = failed; stage = codes "Failed"; error = some (safe_message error) }))

unfoldable pub update_runtime :
    Fields
    → Option FirmwareRelease
    → List FirmwareRelease
    → Option Text
    → Fields
    → Controller
    → Controller
update_runtime installed release releases manifest_error diagnostics c = record c {
  runtime = record {
    installed = installed;
    release = release;
    releases = releases;
    manifest_error = elim manifest_error [
      | none ↦ none
      | some [] ↦ none
      | some (char ∷ message) ↦ some (safe_message (char ∷ message))
    ];
    diagnostics = diagnostics;
  };
}

abbrev pub first_release : Text → List FirmwareRelease → Option FirmwareRelease
first_release ncs_version [] = none
first_release ncs_version (release ∷ others) =
    let later = first_release ncs_version others in
    if text_eq release.ncs_version ncs_version then some release else later

-- `release_for`
unfoldable pub release_for : Text → Controller → Option FirmwareRelease
release_for ncs_version c = first_release ncs_version c.runtime.releases
