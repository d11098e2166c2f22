-- ===== src/Operation/State.antt =====
-- The fields of `OperationController` and its private methods.
use ha_nrf52840_ot_rcp_updat.Base.{
  ℕ, ◌-◌, Bool, false, ◌&&◌, List, [], ◌∷◌, ◌++◌, map, Option, none, some, ◌==◌, if◌then◌else◌,
  length, take, drop,
}
use ha_nrf52840_ot_rcp_updat.Base.Int.{ℤ}
use ha_nrf52840_ot_rcp_updat.Base.Text.{Text, codes, text_eq}
use ha_nrf52840_ot_rcp_updat.Models.Value.{Fields, end}
use ha_nrf52840_ot_rcp_updat.Models.Firmware.{FirmwareRelease}
use ha_nrf52840_ot_rcp_updat.Operation.Command.{QueuedOperation}

abbrev pub max_operation_log_entries : ℕ
max_operation_log_entries = 64

abbrev pub max_operation_message_length : ℕ
max_operation_message_length = 512

pub record RuntimeSnapshot : Type 0 where
  pub installed : Fields
  pub release : Option FirmwareRelease
  pub releases : List FirmwareRelease
  pub manifest_error : Option Text
  pub diagnostics : Fields

-- The values of the text `_state`.
pub data State : Type 0 where
  idle queued running complete failed : State

-- An entry of `_events`.
pub record LogEntry : Type 0 where
  pub time : Text
  pub message : Text

-- The queue holds `None` where `wake` has put it.
pub record Controller : Type 0 where
  pub queue : List (Option QueuedOperation)
  pub busy : Bool
  pub active_identifier : Option Text
  pub state : State
  pub stage : Text
  pub progress : Option ℤ
  pub source : Option Text
  pub error : Option Text
  pub events : List LogEntry
  pub runtime : RuntimeSnapshot

-- `__init__`
unfoldable pub new : Controller
new = record {
  queue = [];
  busy = false;
  active_identifier = none;
  state = idle;
  stage = codes "idle";
  progress = none;
  source = none;
  error = none;
  events = [];
  runtime = record {
    installed = end;
    release = none;
    releases = [];
    manifest_error = none;
    diagnostics = end;
  };
}

unfoldable pub is_active : Text → Controller → Bool
is_active identifier c =
    c.busy && elim c.active_identifier [ none ↦ false | some active ↦ text_eq active identifier ]

abbrev pub replace_nul : ℕ → ℕ
replace_nul char = if char == 0 then 63 else char

unfoldable pub safe_message : Text → Text
safe_message value = take max_operation_message_length (map replace_nul value)

-- `del entries[:-64]`
unfoldable pub keep_latest : List LogEntry → List LogEntry
keep_latest entries = drop (length entries - max_operation_log_entries) entries

unfoldable pub record_event : Text → Text → Controller → Controller
record_event now message c = record c {
  events = keep_latest (c.events ++ record { time = now; message = safe_message message } ∷ []);
}

unfoldable pub release_active : Controller → Controller
release_active c = record c { busy = false; active_identifier = none }

unfoldable pub reset : Controller → Controller
reset c = record c {
  busy = false;
  active_identifier = none;
  state = idle;
  stage = codes "idle";
  progress = none;
  source = none;
  error = none;
  events = [];
}

-- `Queue(maxsize=1).put_nowait`: nothing when it raises `Full`.
unfoldable pub put_nowait :
    Option QueuedOperation → List (Option QueuedOperation) → Option (List (Option QueuedOperation))
put_nowait item [] = some (item ∷ [])
put_nowait item (waiting ∷ others) = none
