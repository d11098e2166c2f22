-- ===== src/Operation/Bounded.antt =====
-- What holds of the fields of `OperationController` between two calls of operation.py, and that
-- every method keeps it.
use ha_nrf52840_ot_rcp_updat.Base.{
  ℕ, zero, suc, ◌-◌, ◌≤◌, ◌≡◌, refl, arith, Bool, true, false, List, [], ◌∷◌, ◌++◌, Option, none,
  some, leb, all, length, drop, length-drop, length-take_le,
}
use ha_nrf52840_ot_rcp_updat.Base.Int.{ℤ, pos}
use ha_nrf52840_ot_rcp_updat.Base.Text.{Text, codes}
use ha_nrf52840_ot_rcp_updat.Operation.State.{
  Controller, State, queued, running, complete, failed, LogEntry, max_operation_log_entries,
  max_operation_message_length, new, is_active, keep_latest, safe_message, record_event,
  release_active, reset, put_nowait,
}
use ha_nrf52840_ot_rcp_updat.Operation.Controller.{
  in_range, reserve, submit, next, wake, start, report_progress, finish, fail, update_runtime,
}
use ha_nrf52840_ot_rcp_updat.Operation.Command.{FlashCommand, QueuedOperation}
use ha_nrf52840_ot_rcp_updat.Operation.Calls.{
  Call, perform, submits, takes, wakes, starts, reports, finishes, fails, publishes,
}

abbrev pub present : {A : Type 0} → Option A → Bool
present none = false
present (some a) = true

abbrev pub is_pending : State → Bool
is_pending queued = true
is_pending running = true
is_pending other = false

abbrev pub is_failed : State → Bool
is_failed failed = true
is_failed other = false

abbrev short : LogEntry → Bool
short entry = leb (length entry.message) max_operation_message_length

unfoldable pub all_short : List LogEntry → Bool
all_short = all short

pub record IsWellFormed (c : Controller) : Type 0 where
  pub queue_capped : length c.queue ≤ 1
  pub events_capped : length c.events ≤ max_operation_log_entries
  pub messages_capped : all_short c.events ≡ true
  pub progress_valid : in_range c.progress ≡ true
  pub busy_active : c.busy ≡ present c.active_identifier
  pub busy_pending : c.busy ≡ is_pending c.state
  pub error_failed : present c.error ≡ is_failed c.state
  pub complete_full : c.state ≡ complete → c.progress ≡ some (pos 100)

all_short-append :
    (entries : List LogEntry) (entry : LogEntry)
    → all_short entries ≡ true
    → short entry ≡ true
    → all_short (entries ++ entry ∷ []) ≡ true
unfolding all_short
all_short-append [] entry h hs = ground arith
all_short-append (first ∷ others) entry h hs = ground (arith, all_short-append others entry)

all_short-drop :
    (n : ℕ) (entries : List LogEntry) → all_short entries ≡ true → all_short (drop n entries) ≡ true
unfolding all_short
all_short-drop zero entries h = h
all_short-drop (suc n) [] h = refl
all_short-drop (suc n) (first ∷ others) h = ground (arith, all_short-drop n others)

length-safe_message : (value : Text) → length (safe_message value) ≤ max_operation_message_length
unfolding safe_message
length-safe_message value = length-take_le _ _

keep_latest-capped :
    (entries : List LogEntry) → length (keep_latest entries) ≤ max_operation_log_entries
unfolding keep_latest
keep_latest-capped entries = omega (arith, length-drop (length entries - 64) entries)

-- The list of events behind `record_event`.
abbrev logged : Text → Text → List LogEntry → List LogEntry
logged now message entries =
    keep_latest (entries ++ record { time = now; message = safe_message message } ∷ [])

logged-capped :
    (now message : Text) (entries : List LogEntry)
    → all_short entries ≡ true
    → (length (logged now message entries) ≤ max_operation_log_entries)
      × (all_short (logged now message entries) ≡ true)
unfolding keep_latest
logged-capped now message entries h = (
  keep_latest-capped (entries ++ record { time = now; message = safe_message message } ∷ []),
  all_short-drop _ _ (all_short-append entries _ h (ground (arith, length-safe_message message))),
)

all_short-[] : all_short [] ≡ true
unfolding all_short
all_short-[] = refl

-- A new controller is well formed.
pub new-IsWellFormed : IsWellFormed new
unfolding new
new-IsWellFormed = ground (arith, all_short-[])

submit-IsWellFormed :
    (now identifier : Text) (command : FlashCommand) (c : Controller)
    → IsWellFormed c
    → IsWellFormed (submit now identifier command c).1
unfolding submit reserve put_nowait reset record_event
submit-IsWellFormed now identifier command c v =
    ground (arith, all_short-[], logged-capped now (codes "Operation accepted") [])

start-IsWellFormed :
    (now : Text) (operation : QueuedOperation) (c : Controller)
    → IsWellFormed c
    → IsWellFormed (start now operation c)
unfolding start is_active record_event
start-IsWellFormed now operation c v =
    ground (arith, logged-capped now (codes "Hardware operation started") c.events)

report_progress-IsWellFormed :
    (now : Text) (operation : QueuedOperation) (percentage : Option ℤ) (stage : Text)
    (c : Controller)
    → IsWellFormed c
    → IsWellFormed (report_progress now operation percentage stage c).1
unfolding report_progress is_active record_event
report_progress-IsWellFormed now operation percentage stage c v =
    ground (arith, logged-capped now (safe_message stage) c.events)

finish-IsWellFormed :
    (now : Text) (operation : QueuedOperation) (message : Text) (c : Controller)
    → IsWellFormed c
    → IsWellFormed (finish now operation message c)
unfolding finish is_active record_event release_active
finish-IsWellFormed now operation message c v =
    ground (arith, logged-capped now (safe_message message) c.events)

fail-IsWellFormed :
    (now : Text) (operation : QueuedOperation) (message : Text) (c : Controller)
    → IsWellFormed c
    → IsWellFormed (fail now operation message c)
unfolding fail is_active record_event release_active
fail-IsWellFormed now operation message c v =
    ground (arith, logged-capped now (safe_message message) c.events)

-- Every call keeps a well-formed controller well formed: at most one item in the queue, at most
-- 64 events of at most 512 characters, progress between 0 and 100, an active identifier just
-- when it is busy, and a state that agrees with busy, error and progress.
pub perform-IsWellFormed :
    (call : Call) (c : Controller) → IsWellFormed c → IsWellFormed (perform call c)
unfolding perform next wake put_nowait update_runtime
perform-IsWellFormed (submits now identifier command) c v =
    submit-IsWellFormed now identifier command c v
perform-IsWellFormed takes c v = ground arith
perform-IsWellFormed wakes c v = ground arith
perform-IsWellFormed (starts now operation) c v = start-IsWellFormed now operation c v
perform-IsWellFormed (reports now operation percentage stage) c v =
    report_progress-IsWellFormed now operation percentage stage c v
perform-IsWellFormed (finishes now operation message) c v =
    finish-IsWellFormed now operation message c v
perform-IsWellFormed (fails now operation message) c v = fail-IsWellFormed now operation message c v
perform-IsWellFormed (publishes installed release releases problem diagnostics) c v = ground arith
