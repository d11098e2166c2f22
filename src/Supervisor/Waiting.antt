-- ===== src/Supervisor/Waiting.antt =====
-- The waits of supervisor.py end: the rounds of their loops are enough for the time that is
-- given, on any clock that runs on while the program sleeps.
use ha_nrf52840_ot_rcp_updat.Base.{
  ℕ, zero, suc, ◌+◌, ◌*◌, ◌/◌, ◌≤◌, ◌≢◌, refl, Bool, true, false, List, Result, ok, err, ltb,
  if◌then◌else◌, arith,
}
use ha_nrf52840_ot_rcp_updat.Base.Text.{Text, text_in}
use ha_nrf52840_ot_rcp_updat.Models.Value.{Value, text, obj, Fields}
use ha_nrf52840_ot_rcp_updat.Effects.{
  Class, supervisor, Failure, raised, out_of_rounds, St, M, pure, change, ◌>>=◌, ◌>>◌,
}
use ha_nrf52840_ot_rcp_updat.Effects.Hoare.{
  returns, raises, Hoare, Hoare-catch, Hoare-fail, Hoare-bind, Hoare-if, Hoare-pure, Hoare-pre,
  Hoare-raise, Hoare-gets, Hoare-change,
}
use ha_nrf52840_ot_rcp_updat.Effects.Timely.{
  EndsTimely, IsTimely, IsTimely-pure, IsTimely-fail, IsTimely-raise, IsTimely-call, IsTimely-catch,
  IsTimely-bind, IsTimely-change, timely_rules, IsTimely-Hoare, Hoare-IsTimely,
  raised-ne-out_of_rounds,
}
use ha_nrf52840_ot_rcp_updat.Environment.{Environment, Method, ClockLaws}
use ha_nrf52840_ot_rcp_updat.Supervisor.Client.{
  accept, on_supervisor_error, checked_document, request, state_text, addon_state, stop_addon,
  start_addon, wait_round, wait_loop, wait_for_state, restore_once, restore_attempts, restore_addon,
  stop_if_running, with_note, restore_after, around, temporarily_stop,
}

with_note-ne : (failure : Failure) → failure ≢ out_of_rounds → with_note failure ≢ out_of_rounds
with_note-ne (raised class noted) h = raised-ne-out_of_rounds class true
with_note-ne out_of_rounds h = absurd (h refl)

module _ {W : Type 0} (env : Environment W) (laws : ClockLaws env) where
  accept-IsTimely :
      (r : Result Class Bool) (document : Fields) → IsTimely env.monotonic (accept env r document)
  unfolding accept
  accept-IsTimely (ok true) document = IsTimely-pure document
  accept-IsTimely (ok false) document = IsTimely-raise supervisor
  accept-IsTimely (err class) document = IsTimely-raise class

  checked_document-IsTimely :
      (document : Value) → IsTimely env.monotonic (checked_document env document)
  unfolding checked_document
  checked_document-IsTimely (obj document) = accept-IsTimely _ document
  checked_document-IsTimely document = search timely_rules

  request-IsTimely :
      (method : Method) (path : Text) → IsTimely env.monotonic (request env method path)
  unfolding request
  request-IsTimely method path =
      IsTimely-bind _ _ (IsTimely-call _ (laws.send method path)) checked_document-IsTimely

  state_text-IsTimely : (state : Value) → IsTimely env.monotonic (state_text env state)
  unfolding state_text
  state_text-IsTimely (text state) = search timely_rules
  state_text-IsTimely state = search timely_rules

  pub addon_state-IsTimely : (slug : Text) → IsTimely env.monotonic (addon_state env slug)
  unfolding addon_state
  addon_state-IsTimely slug = search (timely_rules, request-IsTimely, state_text-IsTimely)

  stop_addon-IsTimely : (slug : Text) → IsTimely env.monotonic (stop_addon env slug)
  unfolding stop_addon
  stop_addon-IsTimely slug = search (timely_rules, request-IsTimely)

  start_addon-IsTimely : (slug : Text) → IsTimely env.monotonic (start_addon env slug)
  unfolding start_addon
  start_addon-IsTimely slug = search (timely_rules, request-IsTimely)

  -- Sleeping is timely.
  pub sleep-IsTimely : (d : ℕ) → IsTimely env.monotonic (change (env.sleep d))
  sleep-IsTimely d = IsTimely-change _ (λ w. omega (arith, laws.sleeps d w))

  abbrev Late : ℕ → Failure → St W → Type 0
  Late base failure s = (failure ≢ out_of_rounds) × (base ≤ env.monotonic s.world)

  -- After the state was asked for: done, or another round 500 milliseconds later.
  wait_rest :
      (again : M W (Unit {0})) (slug : Text) (expected : List Text) (base now : ℕ)
      → base ≤ now
      → Hoare
          (λ s. now + 500 ≤ env.monotonic s.world)
          again
          (λ _ s. base ≤ env.monotonic s.world)
          (Late base)
      → Hoare
          (λ s. now ≤ env.monotonic s.world)
          (do
            state ← addon_state env slug
            if text_in state expected then pure tt else (do change (env.sleep 500); again))
          (λ _ s. base ≤ env.monotonic s.world)
          (Late base)
  wait_rest again slug expected base now le h =
      Hoare-bind _ _ (IsTimely-Hoare base now le (addon_state-IsTimely slug)) (λ state.
        Hoare-if (text_in state expected) _ _ (λ _. Hoare-pure tt (λ s p. omega arith))
          (λ _.
            Hoare-bind {Q = λ _ s. now + 500 ≤ env.monotonic s.world} _ _
              (Hoare-change (env.sleep 500) (λ s p. omega (arith, laws.sleeps 500 s.world)))
              (λ _. h)))

  -- The loop is through when `left` more rounds reach the deadline.
  wait_loop-timely :
      (left : ℕ) (slug : Text) (expected : List Text) (deadline base now : ℕ)
      → base ≤ now
      → deadline ≤ now + left * 500
      → Hoare
          (λ s. now ≤ env.monotonic s.world)
          (wait_loop env (suc left) slug expected deadline)
          (λ _ s. base ≤ env.monotonic s.world)
          (Late base)
  unfolding wait_loop wait_round
  wait_loop-timely zero slug expected deadline base now le enough =
      Hoare-bind {Q = λ seen s. (now ≤ seen) × (now ≤ env.monotonic s.world)} _ _
        (Hoare-gets env.monotonic (λ s p. (p, p)))
        (λ seen.
          Hoare-if (ltb seen deadline) _ _ (λ early. record { at = λ s p. absurd (ground arith) })
            (λ _.
              Hoare-raise supervisor
                (λ s p. (raised-ne-out_of_rounds supervisor false, omega arith))))
  wait_loop-timely (suc left) slug expected deadline base now le enough =
      Hoare-bind {Q = λ seen s. (now ≤ seen) × (now ≤ env.monotonic s.world)} _ _
        (Hoare-gets env.monotonic (λ s p. (p, p)))
        (λ seen.
          Hoare-if (ltb seen deadline) _ _
            (λ _.
              Hoare-pre (λ s. now ≤ env.monotonic s.world) _
                (wait_rest _ slug expected base now le (
                  wait_loop-timely left slug expected deadline base (now + 500) (omega arith)
                    (omega arith)))
                (λ s p. p.1))
            (λ _.
              Hoare-raise supervisor
                (λ s p. (raised-ne-out_of_rounds supervisor false, omega arith))))

  wait_for_state-IsTimely :
      (slug : Text) (expected : List Text) (timeout : ℕ)
      → IsTimely env.monotonic (wait_for_state env slug expected timeout)
  unfolding wait_for_state
  wait_for_state-IsTimely slug expected timeout = Hoare-IsTimely (λ base.
      Hoare-bind {Q = λ now s. (base ≤ now) × (now ≤ env.monotonic s.world)} _ _
        (Hoare-gets env.monotonic (λ s p. (p, omega arith)))
        (λ now. record {
          at = λ s p.
              (wait_loop-timely (timeout / 500 + 1) slug expected (now + timeout) base now p.0
                  (omega arith)).at
                s p.1;
        }))

  restore_once-IsTimely : (slug : Text) → IsTimely env.monotonic (restore_once env slug)
  unfolding restore_once
  restore_once-IsTimely slug =
      search (timely_rules, addon_state-IsTimely, start_addon-IsTimely, wait_for_state-IsTimely)

  on_supervisor_error-IsTimely :
      (handler : M W (Unit {0})) (failure : Failure)
      → failure ≢ out_of_rounds
      → IsTimely env.monotonic handler
      → IsTimely env.monotonic (on_supervisor_error env handler failure)
  on_supervisor_error-IsTimely handler (raised supervisor noted) ne h = h
  on_supervisor_error-IsTimely handler failure ne h = IsTimely-fail failure ne

  restore_attempts-IsTimely :
      (left : ℕ) (slug : Text) → IsTimely env.monotonic (restore_attempts env left slug)
  unfolding restore_attempts
  restore_attempts-IsTimely zero slug = IsTimely-raise supervisor
  restore_attempts-IsTimely (suc left) slug =
      IsTimely-catch _ _ (restore_once-IsTimely slug) (λ failure ne.
        on_supervisor_error-IsTimely _ failure ne
          (IsTimely-bind _ _ (sleep-IsTimely 1000) (λ _. restore_attempts-IsTimely left slug)))

  -- Restoring OTBR comes to an end: no wait uses up its rounds.
  pub restore_addon-IsTimely : (slug : Text) → IsTimely env.monotonic (restore_addon env slug)
  unfolding restore_addon
  restore_addon-IsTimely slug = restore_attempts-IsTimely 3 slug

  stop_if_running-IsTimely : (slug : Text) → IsTimely env.monotonic (stop_if_running env slug)
  unfolding stop_if_running
  stop_if_running-IsTimely slug =
      search (timely_rules, addon_state-IsTimely, stop_addon-IsTimely, wait_for_state-IsTimely)
        depth 8

module _ {W A : Type 0} (env : Environment W) (laws : ClockLaws env) where
  restore_after-timely :
      (now : ℕ) (slug : Text) (was_running : Bool) (r : Result Failure A × St W)
      → EndsTimely env.monotonic now r
      → EndsTimely env.monotonic now (restore_after env slug was_running r)
  restore_after-timely now slug false r h = h
  restore_after-timely now slug true (ok value, s) (returns p) =
      (IsTimely-bind _ _ (restore_addon-IsTimely env laws slug) (λ _. IsTimely-pure value)).at now s
        p
  restore_after-timely now slug true (err failure, s) (raises (ne, p)) =
      (Hoare-bind {Q = λ again t. (again ≢ out_of_rounds) × (now ≤ env.monotonic t.world)} _ _
          (Hoare-catch (Late env laws now) _ _
            (Hoare-bind _ _
              (IsTimely-Hoare now now (omega arith) (restore_addon-IsTimely env laws slug))
              (λ _. Hoare-pure failure (λ t q. (ne, q))))
            (λ other. Hoare-pure (with_note failure) (λ t q. (with_note-ne failure ne, q.1))))
          (λ again. Hoare-fail again (λ t q. q))).at
        s p

  -- `temporarily_stop` comes to an end when its body does, whatever Supervisor answers: no wait in
  -- it uses up its rounds and the clock is not turned back, on any clock that runs on while the
  -- program sleeps.
  pub temporarily_stop-IsTimely :
      (slug : Text) (body : Bool → M W A)
      → ((was_running : Bool) → IsTimely env.monotonic (body was_running))
      → IsTimely env.monotonic (temporarily_stop env slug body)
  unfolding temporarily_stop around
  temporarily_stop-IsTimely slug body h =
      IsTimely-bind _ _ (stop_if_running-IsTimely env laws slug) (λ was_running. record {
        at = λ now s p. restore_after-timely now slug was_running _ ((h was_running).at now s p);
      })
