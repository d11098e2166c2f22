-- ===== src/Preflight/Idle.antt =====
-- Which actions of OTBR preflight.py takes for idle, said without its sets and tests.
use ha_nrf52840_ot_rcp_updat.Base.{
  ◌≡◌, ◌↔◌, refl, ap, ◌⊎◌, inl, inr, Bool-cases, Bool, true, false, List, [], ◌∷◌, Option, none,
  some, Result, ok, err, ◌>>=◌, >>=-eq-ok, All, if◌then◌else◌, arith,
}
use ha_nrf52840_ot_rcp_updat.Base.Text.{Text, codes, text_eq_iff, text_in}
use ha_nrf52840_ot_rcp_updat.Models.Value.{
  Value, get_field, or_null, null, bool, int, real, text, arr, obj, Fields,
}
use ha_nrf52840_ot_rcp_updat.Preflight.Actions.{
  PreflightError, is_member, busy_action_types, busy_states, status_of, type_of, is_busy,
  busy_actions,
}

-- The type of a task that is part of the management of the network.
abbrev pub IsTaskName : Text → Type 0
IsTaskName name =
    (name ≡ codes "addThreadDeviceTask")
    ⊎ (name ≡ codes "getNetworkDiagnosticTask")
    ⊎ (name ≡ codes "resetNetworkDiagCounterTask")
    ⊎ (name ≡ codes "getEnergyScanTask")
    ⊎ (name ≡ codes "updateDeviceCollectionTask")

-- The status of a task that has not ended.
abbrev pub IsActiveName : Text → Type 0
IsActiveName name =
    (name ≡ codes "pending")
    ⊎ (name ≡ codes "active")
    ⊎ (name ≡ codes "undiscovered")
    ⊎ (name ≡ codes "attempted")

-- The value is a text of the kind.
abbrev pub IsNamed : (Text → Type 0) → Value → Type 0
IsNamed P (text name) = P name
IsNamed P other = ⊥

-- The value may be looked up in a set: it is neither a list nor an object.
abbrev pub IsHashable : Value → Type 0
IsHashable (arr items) = ⊥
IsHashable (obj fields) = ⊥
IsHashable other = Unit

-- The status stands in the attributes when these are an object, else in the action itself.
pub data HasStatus (action : Fields) (status : Value) : Type 0 where
  inner :
      (attributes : Fields)
      → get_field (codes "attributes") action ≡ some (obj attributes)
      → status ≡ or_null (get_field (codes "status") attributes)
      → HasStatus action status
  outer :
      ((attributes : Fields) → ¬ (get_field (codes "attributes") action ≡ some (obj attributes)))
      → status ≡ or_null (get_field (codes "status") action)
      → HasStatus action status

-- An idle action is of no management type, or has ended.
pub data IsIdle (action : Fields) : Type 0 where
  foreign :
      IsHashable (or_null (get_field (codes "type") action))
      → ¬ IsNamed IsTaskName (or_null (get_field (codes "type") action))
      → IsIdle action
  ended :
      (status : Value)
      → IsNamed IsTaskName (or_null (get_field (codes "type") action))
      → HasStatus action status
      → IsHashable status
      → ¬ IsNamed IsActiveName status
      → IsIdle action

IsTaskName-iff : (name : Text) → (text_in name busy_action_types ≡ true) ↔ IsTaskName name
unfolding text_in
IsTaskName-iff name = ground (
  text_eq_iff name (codes "addThreadDeviceTask"),
  text_eq_iff name (codes "getNetworkDiagnosticTask"),
  text_eq_iff name (codes "resetNetworkDiagCounterTask"),
  text_eq_iff name (codes "getEnergyScanTask"),
  text_eq_iff name (codes "updateDeviceCollectionTask"),
  arith,
)

IsActiveName-iff : (name : Text) → (text_in name busy_states ≡ true) ↔ IsActiveName name
unfolding text_in
IsActiveName-iff name = ground (
  text_eq_iff name (codes "pending"),
  text_eq_iff name (codes "active"),
  text_eq_iff name (codes "undiscovered"),
  text_eq_iff name (codes "attempted"),
  arith,
)

module _ (P : Text → Type 0) (set : List Text)
    (named : (name : Text) → (text_in name set ≡ true) ↔ P name) where
  member_iff : (value : Value) → (is_member value set ≡ ok true) ↔ IsNamed P value
  unfolding is_member
  member_iff null = ground arith
  member_iff (bool b) = ground arith
  member_iff (int n) = ground arith
  member_iff (real w) = ground arith
  member_iff (text name) = (λ h. (named name).0 cc, λ h. ap ok ((named name).1 h))
  member_iff (arr items) = ground arith
  member_iff (obj fields) = ground arith

  not_member_iff :
      (value : Value) → (is_member value set ≡ ok false) ↔ (IsHashable value × ¬ IsNamed P value)
  unfolding is_member
  not_member_iff null = (λ h. (tt, λ n. n), λ h. refl)
  not_member_iff (bool b) = (λ h. (tt, λ n. n), λ h. refl)
  not_member_iff (int n) = (λ h. (tt, λ n. n), λ h. refl)
  not_member_iff (real w) = (λ h. (tt, λ n. n), λ h. refl)
  not_member_iff (text name) = (
    λ h. (tt, λ n. let found = (named name).1 n in cc),
    λ h. elim (Bool-cases (text_in name set)) [
      | inl e ↦ absurd (h.1 ((named name).0 e))
      | inr e ↦ ap ok e
    ],
  )
  not_member_iff (arr items) = ground arith
  not_member_iff (obj fields) = ground arith

attributes_status :
    (action : Fields) (found : Option Value)
    → get_field (codes "attributes") action ≡ found
    → HasStatus action (elim (or_null found) [
      | obj attributes ↦ or_null (get_field (codes "status") attributes)
      | _ ↦ or_null (get_field (codes "status") action)
    ])
attributes_status action none e = outer (λ attributes h. cc) refl
attributes_status action (some null) e = outer (λ attributes h. cc) refl
attributes_status action (some (bool b)) e = outer (λ attributes h. cc) refl
attributes_status action (some (int n)) e = outer (λ attributes h. cc) refl
attributes_status action (some (real w)) e = outer (λ attributes h. cc) refl
attributes_status action (some (text t)) e = outer (λ attributes h. cc) refl
attributes_status action (some (arr items)) e = outer (λ attributes h. cc) refl
attributes_status action (some (obj fields)) e = inner fields e refl

status_of-HasStatus : (action : Fields) → HasStatus action (status_of action)
unfolding status_of
status_of-HasStatus action = attributes_status action _ refl

-- An action has one status.
HasStatus-unique :
    {action : Fields} {one other : Value}
    → HasStatus action one
    → HasStatus action other
    → one ≡ other
HasStatus-unique (inner a e s) (inner b f t) = let same : a ≡ b = cc in cc
HasStatus-unique (inner a e s) (outer lacks t) = absurd (lacks a e)
HasStatus-unique (outer lacks s) (inner b f t) = absurd (lacks b f)
HasStatus-unique (outer lacks s) (outer absent t) = cc

-- The test of `_busy_actions` fails exactly on idle actions.
pub idle_iff : (action : Fields) → (is_busy action ≡ ok false) ↔ IsIdle action
unfolding is_busy type_of
idle_iff action = (idle (is_member (type_of action) busy_action_types) refl, busy_false)
  where
    idle :
        (typed : Result PreflightError Bool)
        → is_member (type_of action) busy_action_types ≡ typed
        → (typed >>= λ t. if t then is_member (status_of action) busy_states else ok false)
          ≡ ok false
        → IsIdle action
    idle (err e) same h = cc
    idle (ok false) same h =
        let (hashable, not_named) =
          (not_member_iff IsTaskName busy_action_types IsTaskName-iff (type_of action)).0 same in
        foreign hashable not_named
    idle (ok true) same h =
        let (hashable, not_named) =
          (not_member_iff IsActiveName busy_states IsActiveName-iff (status_of action)).0 h in
        ended (status_of action)
          ((member_iff IsTaskName busy_action_types IsTaskName-iff (type_of action)).0 same)
          (status_of-HasStatus action) hashable not_named

    busy_false : IsIdle action → is_busy action ≡ ok false
    busy_false (foreign hashable not_named) =
        rw
          ((not_member_iff IsTaskName busy_action_types IsTaskName-iff (type_of action)).1
            (hashable, not_named))
          refl
    busy_false (ended status named has hashable not_named) =
        rw ((member_iff IsTaskName busy_action_types IsTaskName-iff (type_of action)).1 named) (
          (not_member_iff IsActiveName busy_states IsActiveName-iff (status_of action)).1
            (rw (HasStatus-unique (status_of-HasStatus action) has) (hashable, not_named)))

-- No action is busy exactly when all are idle.
pub All-idle_iff : (present : List Fields) → (busy_actions present ≡ ok []) ↔ All IsIdle present
unfolding busy_actions
All-idle_iff present = (to present, from present)
  where
    to : (items : List Fields) → busy_actions items ≡ ok [] → All IsIdle items
    to [] h = tt
    to (action ∷ others) h =
        let (busy, e, h1) = >>=-eq-ok (is_busy action) _ h in
        let (rest, f, h2) = >>=-eq-ok (busy_actions others) _ h1 in
        ((idle_iff action).0 (ground arith), to others (ground arith))

    from : (items : List Fields) → All IsIdle items → busy_actions items ≡ ok []
    from [] all = refl
    from (action ∷ others) (idle, all) = rw ((idle_iff action).1 idle, from others all) refl
