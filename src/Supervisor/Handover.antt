-- ===== src/Supervisor/Handover.antt =====
-- `temporarily_stop` of supervisor.py: what holds of its body and of OTBR behind it.
use ha_nrf52840_ot_rcp_updat.Base.{ℕ, zero, suc, ◌≡◌, ◌∙◌, Bool, true, false, List, Result, ok, err}
use ha_nrf52840_ot_rcp_updat.Base.Text.{Text, text_in}
use ha_nrf52840_ot_rcp_updat.Effects.{
  supervisor, Failure, raised, Event, St, M, pure, continue, handle, fail, catch, ◌>>=◌,
}
use ha_nrf52840_ot_rcp_updat.Effects.Hoare.{
  Ends, returns, raises, Hoare, Hoare-pure, Hoare-raise, Hoare-fail, Hoare-catch, Hoare-if,
  Hoare-pre, Hoare-post, Hoare-bind,
}
use ha_nrf52840_ot_rcp_updat.Effects.Keeps.{
  Keeps-catch, Keeps-bind, Keeps-change, Keeps-pure, Keeps-Hoare,
}
use ha_nrf52840_ot_rcp_updat.Environment.{Environment}
use ha_nrf52840_ot_rcp_updat.Supervisor.Client.{
  running_states, on_supervisor_error, restore_once, restore_attempts, restore_addon, with_note,
  restore_after, around, temporarily_stop,
}
use ha_nrf52840_ot_rcp_updat.Supervisor.Requests.{Stable, start_addon-Keeps, restore_addon-Keeps}
use ha_nrf52840_ot_rcp_updat.Supervisor.Ownership.{
  is_down, is_up, addon_state-IsNews, wait_for_state-news, stop_if_running-down,
}

module _ {W A : Type 0} (env : Environment W) {I : List Event → Type 0} (stable : Stable I)
    (Q : A → Type 0) where
  restore_after-Ends :
      (slug : Text) (was_running : Bool) (r : Result Failure A × St W)
      → Ends (λ value s. Q value × I s.log) (λ _ s. I s.log) r
      → Ends (λ value s. Q value × I s.log) (λ _ s. I s.log) (restore_after env slug was_running r)
  restore_after-Ends slug false r h = h
  restore_after-Ends slug true (ok value, s) (returns (q, p)) =
      (Hoare-bind _ _ (Keeps-Hoare I (restore_addon-Keeps env stable slug))
          (λ _. Hoare-pure value (λ s' p'. (q, p')))).at
        s p
  restore_after-Ends slug true (err failure, s) (raises p) =
      (Hoare-bind _ _
          (Keeps-Hoare I (
            Keeps-catch _ _
              (Keeps-bind _ _ (restore_addon-Keeps env stable slug) (λ _. Keeps-pure failure))
              (λ _. Keeps-pure (with_note failure))))
          (λ again. Hoare-fail again (λ s' p'. p'))).at
        s p

  -- The rule for `with temporarily_stop(slug) as was_running: body`: the body starts with OTBR down.
  pub temporarily_stop-rule :
      (slug : Text) (body : Bool → M W A)
      → ((was_running : Bool)
          → Hoare
              (λ s. I s.log × (is_down s.log ≡ true))
              (body was_running)
              (λ value s. Q value × I s.log)
              (λ _ s. I s.log))
      → Hoare
          (λ s. I s.log)
          (temporarily_stop env slug body)
          (λ value s. Q value × I s.log)
          (λ _ s. I s.log)
  unfolding temporarily_stop around
  temporarily_stop-rule slug body h =
      Hoare-bind _ _ (stop_if_running-down env stable slug) (λ was_running. record {
        at = λ s p. restore_after-Ends slug was_running _ ((h was_running).at s p);
      })

abbrev AnyLog : List Event → Type 0
AnyLog log = Unit

any-Stable : Stable AnyLog
any-Stable = record { observing = λ _ _ _. tt; stopping = λ _ _. tt; starting = λ _ _. tt }

module _ {W : Type 0} (env : Environment W) where
  restore_once-up :
      (slug : Text)
      → Hoare (λ _. Unit) (restore_once env slug) (λ _ s. is_up s.log ≡ true) (λ _ _. Unit)
  unfolding restore_once
  restore_once-up slug = Hoare-bind _ _ (addon_state-IsNews env any-Stable slug) (λ state.
      Hoare-if (text_in state running_states) _ _
        (λ running. Hoare-pure tt (λ s q. q.1.up_news ∙ running))
        (λ _.
          Hoare-pre (λ _. Unit) _
            (Hoare-bind _ _ (Keeps-Hoare AnyLog (start_addon-Keeps env any-Stable slug)) (λ _.
              Hoare-post (wait_for_state-news env any-Stable slug running_states 15000)
                (λ _ s (found, member, p, news). news.up_news ∙ member) (λ _ _ _. tt)))
            (λ _ _. tt)))

  on_supervisor_error-up :
      (handler : M W (Unit {0})) (failure : Failure)
      → Hoare (λ _. Unit) handler (λ _ s. is_up s.log ≡ true) (λ _ _. Unit)
      → Hoare
          (λ _. Unit)
          (on_supervisor_error env handler failure)
          (λ _ s. is_up s.log ≡ true)
          (λ _ _. Unit)
  on_supervisor_error-up handler (raised supervisor noted) h = h
  on_supervisor_error-up handler failure h = Hoare-fail failure (λ _ _. tt)

  restore_attempts-up :
      (left : ℕ) (slug : Text)
      → Hoare (λ _. Unit) (restore_attempts env left slug) (λ _ s. is_up s.log ≡ true) (λ _ _. Unit)
  unfolding restore_attempts
  restore_attempts-up zero slug = Hoare-raise supervisor (λ _ _. tt)
  restore_attempts-up (suc left) slug =
      Hoare-catch (λ _ _. Unit) _ _ (restore_once-up slug)
        (λ failure. on_supervisor_error-up _ failure (
          Hoare-bind _ _ (Keeps-Hoare AnyLog (Keeps-change (env.sleep 1000)))
            (λ _. restore_attempts-up left slug)))

-- How `temporarily_stop` ends when OTBR ran before and its body ended with `ended`: with the
-- body's value and OTBR up, or with a failure; with the body's failure unchanged and OTBR up, or
-- with that failure and the note that OTBR could not be restarted.
pub data IsRestored {W A : Type 0}
    : Result Failure A × St W → Result Failure A × St W → Type 0 where
  value_up : {value : A} {s t : St W} → is_up t.log ≡ true → IsRestored (ok value, s) (ok value, t)
  restart_failed :
      {value : A} {failure : Failure} {s t : St W} → IsRestored (ok value, s) (err failure, t)
  failure_up :
      {failure : Failure} {s t : St W}
      → is_up t.log ≡ true
      → IsRestored (err failure, s) (err failure, t)
  failure_noted :
      {failure : Failure} {s t : St W} → IsRestored (err failure, s) (err (with_note failure), t)

module _ {W A : Type 0} (env : Environment W) where
  value-IsRestored :
      (value : A) (s : St W) (r : Result Failure (Unit {0}) × St W)
      → Ends (λ _ t. is_up t.log ≡ true) (λ _ _. Unit) r
      → IsRestored (ok value, s) (continue r (λ _. pure value))
  unfolding pure
  value-IsRestored value s (ok tt, t) (returns up) = value_up up
  value-IsRestored value s (err failure, t) (raises _) = restart_failed

  failure-IsRestored :
      (failure : Failure) (s : St W) (r : Result Failure (Unit {0}) × St W)
      → Ends (λ _ t. is_up t.log ≡ true) (λ _ _. Unit) r
      → IsRestored {A = A}
          (err failure, s)
          (continue
            (handle (continue r (λ _. pure failure)) (λ _. pure (with_note failure)))
            (λ again. fail again))
  unfolding pure fail
  failure-IsRestored failure s (ok tt, t) (returns up) = failure_up up
  failure-IsRestored failure s (err other, t) (raises _) = failure_noted

  -- When OTBR ran before, then however the body of `temporarily_stop` has ended: its value is
  -- returned only with OTBR last seen running; its failure comes out unchanged with OTBR last seen
  -- running, or with the note that OTBR could not be restarted.
  pub around-IsRestored :
      (slug : Text) (body : M W A) (s : St W) → IsRestored (body s) (around env slug true body s)
  unfolding around restore_addon ◌>>=◌ catch
  around-IsRestored slug body s = by_end (body s)
    where
      by_end : (r : Result Failure A × St W) → IsRestored r (restore_after env slug true r)
      by_end (ok value, t) = value-IsRestored value t _ ((restore_attempts-up env 3 slug).at t tt)
      by_end (err failure, t) =
          failure-IsRestored failure t _ ((restore_attempts-up env 3 slug).at t tt)
