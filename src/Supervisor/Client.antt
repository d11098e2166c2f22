-- ===== src/Supervisor/Client.antt =====
-- `SupervisorClient` of supervisor.py. `send` of the environment is the part of `_request` that
-- opens the URL and decodes the response; its failures are whatever class it likes.
use ha_nrf52840_ot_rcp_updat.Base.{
  ℕ, zero, suc, ◌+◌, Bool, true, false, List, [], ◌∷◌, ◌++◌, none, some, Result, ok, err, ltb,
  if◌then◌else◌,
}
use ha_nrf52840_ot_rcp_updat.Base.Text.{lower, Text, codes, text_eq, text_in}
use ha_nrf52840_ot_rcp_updat.Models.Value.{Value, get_field, or_null, null, text, arr, obj, Fields}
use ha_nrf52840_ot_rcp_updat.Effects.{
  rounds, Class, supervisor, other, Failure, raised, out_of_rounds, observed, stop, start, St, M,
  pure, fail, raise, catch, call, gets, write, change, ◌>>=◌, ◌>>◌,
}
use ha_nrf52840_ot_rcp_updat.Environment.{Environment, Method, get, post}

-- `result in {"ok", None}`: a list or an object is not hashable.
unfoldable pub is_accepted : Value → Result Class Bool
is_accepted null = ok true
is_accepted (text value) = ok (text_eq value (codes "ok"))
is_accepted (arr items) = err other
is_accepted (obj fields) = err other
is_accepted value = ok false

abbrev pub running_states : List Text
running_states = codes "started" ∷ codes "running" ∷ []

abbrev pub stopped_states : List Text
stopped_states = codes "stopped" ∷ codes "not_running" ∷ []

-- `CORE_OTBR_ADDON_SLUG`; every call of the program is about this app.
abbrev pub otbr : Text
otbr = codes "core_openthread_border_router"

-- `add_note`
abbrev pub with_note : Failure → Failure
with_note (raised class noted) = raised class true
with_note out_of_rounds = out_of_rounds

module _ {W : Type 0} (env : Environment W) where
  unfoldable pub accept : Result Class Bool → Fields → M W Fields
  accept (ok true) document = pure document
  accept (ok false) document = raise supervisor
  accept (err class) document = raise class

  unfoldable pub checked_document : Value → M W Fields
  checked_document (obj document) =
      accept (is_accepted (or_null (get_field (codes "result") document))) document
  checked_document document = raise supervisor

  -- `_request`
  unfoldable pub request : Method → Text → M W Fields
  request method path = do document ← call (env.send method path); checked_document document

  -- `data.get("state") if isinstance(data, dict) else None`, with `data` the response itself
  -- where it has none.
  unfoldable pub state_value : Fields → Value
  state_value response = elim (get_field (codes "data") response) [
    | none ↦ or_null (get_field (codes "state") response)
    | some (obj inner) ↦ or_null (get_field (codes "state") inner)
    | some value ↦ null
  ]

  unfoldable pub state_text : Value → M W Text
  state_text (text state) = do let reported = lower state; write (observed reported); pure reported
  state_text value = raise supervisor

  unfoldable pub addon_state : Text → M W Text
  addon_state slug = do
    response ← request get (codes "/addons/" ++ slug ++ codes "/info")
    state_text (state_value response)

  unfoldable pub stop_addon : Text → M W (Unit {0})
  stop_addon slug = do
    write stop
    response ← request post (codes "/addons/" ++ slug ++ codes "/stop")
    pure tt

  unfoldable pub start_addon : Text → M W (Unit {0})
  start_addon slug = do
    write start
    response ← request post (codes "/addons/" ++ slug ++ codes "/start")
    pure tt

  -- A round of the loop of `wait_for_state`; `again` is the rounds that follow.
  unfoldable pub wait_round : M W (Unit {0}) → Text → List Text → ℕ → M W (Unit {0})
  wait_round again slug expected deadline = do
    now ← gets env.monotonic
    if ltb now deadline
        then (do
          state ← addon_state slug
          if text_in state expected then pure tt else (do change (env.sleep 500); again))
        else raise supervisor

  unfoldable pub wait_loop : ℕ → Text → List Text → ℕ → M W (Unit {0})
  wait_loop zero slug expected deadline = fail out_of_rounds
  wait_loop (suc left) slug expected deadline =
      wait_round (wait_loop left slug expected deadline) slug expected deadline

  unfoldable pub wait_for_state : Text → List Text → ℕ → M W (Unit {0})
  wait_for_state slug expected timeout = do
    now ← gets env.monotonic
    wait_loop (rounds timeout 500) slug expected (now + timeout)

  -- `except SupervisorError`
  abbrev pub on_supervisor_error : M W (Unit {0}) → Failure → M W (Unit {0})
  on_supervisor_error handler (raised supervisor noted) = handler
  on_supervisor_error handler failure = fail failure

  -- The `try` of an attempt of `_restore_addon`.
  unfoldable pub restore_once : Text → M W (Unit {0})
  restore_once slug = do
    state ← addon_state slug
    if text_in state running_states
        then pure tt
        else (do start_addon slug; wait_for_state slug running_states 15000)

  -- The attempts that are left; the caught error of the last one is chained.
  unfoldable pub restore_attempts : ℕ → Text → M W (Unit {0})
  restore_attempts zero slug = raise supervisor
  restore_attempts (suc left) slug =
      catch (restore_once slug)
        (on_supervisor_error (do change (env.sleep 1000); restore_attempts left slug))

  unfoldable pub restore_addon : Text → M W (Unit {0})
  restore_addon slug = restore_attempts 3 slug

  -- What `temporarily_stop` does before its body: the value is `was_running`.
  unfoldable pub stop_if_running : Text → M W Bool
  stop_if_running slug = do
    state ← addon_state slug
    if text_in state running_states
        then (do stop_addon slug; wait_for_state slug stopped_states 30000; pure true)
        else pure false

  -- The `finally` of `temporarily_stop`, on how its body has ended.
  abbrev pub restore_after :
      {A : Type 0} → Text → Bool → Result Failure A × St W → Result Failure A × St W
  restore_after slug false ended = ended
  restore_after slug true (ok value, s) = (do restore_addon slug; pure value) s
  restore_after {A} slug true (err failure, s) =
      (do
        again ← catch (do restore_addon slug; pure failure) (λ _. pure (with_note failure))
        fail {A = A} again)
        s

  unfoldable pub around : {A : Type 0} → Text → Bool → M W A → M W A
  around slug was_running body s = restore_after slug was_running (body s)

  -- `with temporarily_stop(slug) as was_running: body`
  unfoldable pub temporarily_stop : {A : Type 0} → Text → (Bool → M W A) → M W A
  temporarily_stop slug body = do
    was_running ← stop_if_running slug
    around slug was_running (body was_running)
