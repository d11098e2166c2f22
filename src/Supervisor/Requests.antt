-- ===== src/Supervisor/Requests.antt =====
-- The requests of supervisor.py keep every property of logs that their own events keep.
use ha_nrf52840_ot_rcp_updat.Base.{ℕ, zero, suc, Bool, true, false, List, ◌∷◌, Result, ok, err}
use ha_nrf52840_ot_rcp_updat.Base.Text.{Text}
use ha_nrf52840_ot_rcp_updat.Models.Value.{Value, text, obj, Fields}
use ha_nrf52840_ot_rcp_updat.Effects.{
  Class, supervisor, Failure, raised, Event, observed, stop, start, M,
}
use ha_nrf52840_ot_rcp_updat.Effects.Keeps.{
  Keeps, Keeps-raise, Keeps-fail, Keeps-catch, Keeps-bind, Keeps-change, Keeps-pure, Keeps-write,
  keeps_rules,
}
use ha_nrf52840_ot_rcp_updat.Environment.{Environment, Method}
use ha_nrf52840_ot_rcp_updat.Supervisor.Client.{
  accept, on_supervisor_error, checked_document, request, state_text, addon_state, stop_addon,
  start_addon, wait_round, wait_loop, wait_for_state, restore_once, restore_attempts, restore_addon,
}

-- A property of logs that the calls of the Supervisor keep.
pub record Stable (I : List Event → Type 0) : Type 0 where
  pub observing : (state : Text) (log : List Event) → I log → I (observed state ∷ log)
  pub stopping : (log : List Event) → I log → I (stop ∷ log)
  pub starting : (log : List Event) → I log → I (start ∷ log)

module _ {W : Type 0} (env : Environment W) {I : List Event → Type 0} (stable : Stable I) where
  pub accept-Keeps : (r : Result Class Bool) (document : Fields) → Keeps I (accept env r document)
  unfolding accept
  accept-Keeps (ok true) document = Keeps-pure document
  accept-Keeps (ok false) document = Keeps-raise supervisor
  accept-Keeps (err class) document = Keeps-raise class

  pub checked_document-Keeps : (document : Value) → Keeps I (checked_document env document)
  unfolding checked_document
  checked_document-Keeps (obj document) = accept-Keeps _ document
  checked_document-Keeps document = search keeps_rules

  state_text-Keeps : (state : Value) → Keeps I (state_text env state)
  unfolding state_text
  state_text-Keeps (text state) = search (keeps_rules, Keeps-write, stable.observing)
  state_text-Keeps state = search keeps_rules

  pub request-Keeps : (method : Method) (path : Text) → Keeps I (request env method path)
  unfolding request
  request-Keeps method path = search (keeps_rules, checked_document-Keeps)

  pub addon_state-Keeps : (slug : Text) → Keeps I (addon_state env slug)
  unfolding addon_state
  addon_state-Keeps slug = search (keeps_rules, request-Keeps, state_text-Keeps)

  pub stop_addon-Keeps : (slug : Text) → Keeps I (stop_addon env slug)
  unfolding stop_addon
  stop_addon-Keeps slug = search (keeps_rules, request-Keeps, Keeps-write, stable.stopping)

  pub start_addon-Keeps : (slug : Text) → Keeps I (start_addon env slug)
  unfolding start_addon
  start_addon-Keeps slug = search (keeps_rules, request-Keeps, Keeps-write, stable.starting)

  wait_round-Keeps :
      (again : M W (Unit {0})) (slug : Text) (expected : List Text) (deadline : ℕ)
      → Keeps I again
      → Keeps I (wait_round env again slug expected deadline)
  unfolding wait_round
  wait_round-Keeps again slug expected deadline h = search (keeps_rules, addon_state-Keeps) depth 8

  wait_loop-Keeps :
      (left : ℕ) (slug : Text) (expected : List Text) (deadline : ℕ)
      → Keeps I (wait_loop env left slug expected deadline)
  unfolding wait_loop
  wait_loop-Keeps zero slug expected deadline = search keeps_rules
  wait_loop-Keeps (suc left) slug expected deadline =
      wait_round-Keeps _ slug expected deadline (wait_loop-Keeps left slug expected deadline)

  pub wait_for_state-Keeps :
      (slug : Text) (expected : List Text) (timeout : ℕ)
      → Keeps I (wait_for_state env slug expected timeout)
  unfolding wait_for_state
  wait_for_state-Keeps slug expected timeout = search (keeps_rules, wait_loop-Keeps)

  on_supervisor_error-Keeps :
      (handler : M W (Unit {0})) (failure : Failure)
      → Keeps I handler
      → Keeps I (on_supervisor_error env handler failure)
  on_supervisor_error-Keeps handler (raised supervisor noted) h = h
  on_supervisor_error-Keeps handler failure h = Keeps-fail failure

  pub restore_once-Keeps : (slug : Text) → Keeps I (restore_once env slug)
  unfolding restore_once
  restore_once-Keeps slug =
      search (keeps_rules, addon_state-Keeps, start_addon-Keeps, wait_for_state-Keeps)

  restore_attempts-Keeps : (left : ℕ) (slug : Text) → Keeps I (restore_attempts env left slug)
  unfolding restore_attempts
  restore_attempts-Keeps zero slug = search keeps_rules
  restore_attempts-Keeps (suc left) slug = Keeps-catch _ _ (restore_once-Keeps slug) (λ failure.
      on_supervisor_error-Keeps _ failure
        (Keeps-bind _ _ (Keeps-change (env.sleep 1000)) (λ _. restore_attempts-Keeps left slug)))

  pub restore_addon-Keeps : (slug : Text) → Keeps I (restore_addon env slug)
  unfolding restore_addon
  restore_addon-Keeps slug = restore_attempts-Keeps 3 slug
