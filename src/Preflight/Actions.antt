-- ===== src/Preflight/Actions.antt =====
-- What `OtbrRestClient` of preflight.py computes from a decoded response.
use ha_nrf52840_ot_rcp_updat.Base.{
  Bool, false, List, [], ◌∷◌, none, some, Result, ok, err, if◌then◌else◌, ◌>>=◌,
}
use ha_nrf52840_ot_rcp_updat.Base.Text.{Text, codes, text_in}
use ha_nrf52840_ot_rcp_updat.Models.Value.{
  Value, get_field, or_null, text, arr, obj, Items, nil, cons, Fields,
}

-- The places where preflight.py raises. `type_error` is the exception of Python for a list or an
-- object that is looked up in a set.
pub data PreflightError : Type 0 where
  unable_to_read invalid_json unsupported_shape active_work started_work type_error : PreflightError

-- `all(isinstance(item, dict) for item in document)`
unfoldable pub objects : Items → Result PreflightError (List Fields)
objects nil = ok []
objects (cons (obj fields) others) = do rest ← objects others; ok (fields ∷ rest)
objects (cons other others) = err unsupported_shape

unfoldable pub unwrap : Value → Value
unwrap (obj fields) = elim (get_field (codes "data") fields) [
  | none ↦ or_null (get_field (codes "actions") fields)
  | some document ↦ document
]
unwrap other = other

unfoldable pub as_array : Value → Result PreflightError (List Fields)
as_array (arr items) = objects items
as_array other = err unsupported_shape

-- `actions`, from the decoded response on.
unfoldable pub listed : Value → Result PreflightError (List Fields)
listed document = as_array (unwrap document)

abbrev pub busy_action_types : List Text
busy_action_types =
    codes "addThreadDeviceTask"
    ∷ codes "getNetworkDiagnosticTask"
    ∷ codes "resetNetworkDiagCounterTask"
    ∷ codes "getEnergyScanTask"
    ∷ codes "updateDeviceCollectionTask"
    ∷ []

abbrev pub busy_states : List Text
busy_states = codes "pending" ∷ codes "active" ∷ codes "undiscovered" ∷ codes "attempted" ∷ []

-- `value in {...}` for a set of strings.
unfoldable pub is_member : Value → List Text → Result PreflightError Bool
is_member (text value) set = ok (text_in value set)
is_member (arr items) set = err type_error
is_member (obj fields) set = err type_error
is_member other set = ok false

unfoldable pub status_of : Fields → Value
status_of action = elim (or_null (get_field (codes "attributes") action)) [
  | obj attributes ↦ or_null (get_field (codes "status") attributes)
  | _ ↦ or_null (get_field (codes "status") action)
]

unfoldable pub type_of : Fields → Value
type_of action = or_null (get_field (codes "type") action)

-- The test of the loop of `_busy_actions`.
unfoldable pub is_busy : Fields → Result PreflightError Bool
is_busy action = do
  typed ← is_member (type_of action) busy_action_types
  if typed then is_member (status_of action) busy_states else ok false

-- `_busy_actions`, with the actions in place of their texts.
unfoldable pub busy_actions : List Fields → Result PreflightError (List Fields)
busy_actions [] = ok []
busy_actions (action ∷ others) = do
  busy ← is_busy action
  rest ← busy_actions others
  ok (if busy then action ∷ rest else rest)
