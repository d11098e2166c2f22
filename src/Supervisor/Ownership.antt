-- ===== src/Supervisor/Ownership.antt =====
-- Who owns the radio: `temporarily_stop` of supervisor.py runs its body only while OTBR is down,
-- and starts OTBR again behind it.
use ha_nrf52840_ot_rcp_updat.Base.{
  ℕ, zero, suc, ◌≡◌, ◌⊎◌, inl, inr, refl, ap, ◌∙◌, Bool, true, false, not, List, [], ◌∷◌, ltb,
  arith,
}
use ha_nrf52840_ot_rcp_updat.Base.Text.{lower, Text, codes, text_eq, text_eq_iff, text_in}
use ha_nrf52840_ot_rcp_updat.Models.Value.{Value, null, bool, int, real, text, arr, obj}
use ha_nrf52840_ot_rcp_updat.Effects.{
  supervisor, out_of_rounds, Event, observed, stop, start, St, M,
}
use ha_nrf52840_ot_rcp_updat.Effects.Hoare.{
  Hoare, Hoare-pure, Hoare-raise, Hoare-fail, Hoare-if, Hoare-pre, Hoare-bind, Hoare-write,
}
use ha_nrf52840_ot_rcp_updat.Effects.Keeps.{Keeps-change, Keeps-gets, Keeps-Hoare}
use ha_nrf52840_ot_rcp_updat.Environment.{Environment}
use ha_nrf52840_ot_rcp_updat.Supervisor.Client.{
  running_states, stopped_states, state_value, state_text, addon_state, wait_round, wait_loop,
  wait_for_state, stop_if_running,
}
use ha_nrf52840_ot_rcp_updat.Supervisor.Requests.{Stable, request-Keeps, stop_addon-Keeps}

-- The last news of OTBR is a state in which it does not run.
abbrev pub is_down : List Event → Bool
is_down [] = false
is_down (observed state ∷ before) = not (text_in state running_states)
is_down (start ∷ before) = false
is_down (event ∷ before) = is_down before

-- The last news of OTBR is that it runs.
abbrev pub is_up : List Event → Bool
is_up [] = false
is_up (observed state ∷ before) = text_in state running_states
is_up (stop ∷ before) = false
is_up (event ∷ before) = is_up before

-- The last news in the log is this state.
pub record IsNews (state : Text) (log : List Event) : Type 0 where
  pub down_news : is_down log ≡ not (text_in state running_states)
  pub up_news : is_up log ≡ text_in state running_states

stopped-cases :
    (state : Text)
    → text_in state stopped_states ≡ true
    → (state ≡ codes "stopped") ⊎ (state ≡ codes "not_running")
unfolding text_in
stopped-cases state h =
    ground (arith, text_eq_iff state (codes "stopped"), text_eq_iff state (codes "not_running"))

stopped-not_running :
    (state : Text) → text_in state stopped_states ≡ true → text_in state running_states ≡ false
unfolding text_in text_eq
stopped-not_running state h = elim (stopped-cases state h) [ inl e ↦ rw e refl | inr e ↦ rw e refl ]

module _ {W : Type 0} (env : Environment W) {I : List Event → Type 0} (stable : Stable I) where
  state_text-IsNews :
      (state : Value)
      → Hoare
          (λ s. I s.log)
          (state_text env state)
          (λ state s. I s.log × IsNews state s.log)
          (λ _ s. I s.log)
  unfolding state_text
  state_text-IsNews (text state) =
      Hoare-bind {Q = λ _ s. I s.log × IsNews (lower state) s.log} _ _
        (Hoare-write (observed (lower state))
          (λ s p. (stable.observing _ _ p, record { down_news = refl; up_news = refl })))
        (λ _. Hoare-pure (lower state) (λ s q. q))
  state_text-IsNews null = Hoare-raise supervisor (λ s p. p)
  state_text-IsNews (bool b) = Hoare-raise supervisor (λ s p. p)
  state_text-IsNews (int n) = Hoare-raise supervisor (λ s p. p)
  state_text-IsNews (real t) = Hoare-raise supervisor (λ s p. p)
  state_text-IsNews (arr items) = Hoare-raise supervisor (λ s p. p)
  state_text-IsNews (obj fields) = Hoare-raise supervisor (λ s p. p)

  -- A state that `addon_state` returns is the last news in the log.
  pub addon_state-IsNews :
      (slug : Text)
      → Hoare
          (λ s. I s.log)
          (addon_state env slug)
          (λ state s. I s.log × IsNews state s.log)
          (λ _ s. I s.log)
  unfolding addon_state
  addon_state-IsNews slug =
      Hoare-bind _ _ (Keeps-Hoare I (request-Keeps env stable _ _))
        (λ response. state_text-IsNews (state_value env response))

  abbrev pub Reached : List Text → St W → Type 0
  Reached expected s =
      (state : Text) × (text_in state expected ≡ true) × I s.log × IsNews state s.log

  wait_round-news :
      (again : M W (Unit {0})) (slug : Text) (expected : List Text) (deadline : ℕ)
      → Hoare (λ s. I s.log) again (λ _ s. Reached expected s) (λ _ s. I s.log)
      → Hoare
          (λ s. I s.log)
          (wait_round env again slug expected deadline)
          (λ _ s. Reached expected s)
          (λ _ s. I s.log)
  unfolding wait_round
  wait_round-news again slug expected deadline h =
      Hoare-bind _ _ (Keeps-Hoare I (Keeps-gets env.monotonic)) (λ now.
        Hoare-if (ltb now deadline) _ _
          (λ _. Hoare-bind _ _ (addon_state-IsNews slug) (λ state.
            Hoare-if (text_in state expected) _ _
              (λ member. Hoare-pure tt (λ s q. (state, member, q.0, q.1)))
              (λ _.
                Hoare-pre (λ s. I s.log) _
                  (Hoare-bind _ _ (Keeps-Hoare I (Keeps-change (env.sleep 500))) (λ _. h))
                  (λ s q. q.0))))
          (λ _. Hoare-raise supervisor (λ s p. p)))

  wait_loop-news :
      (left : ℕ) (slug : Text) (expected : List Text) (deadline : ℕ)
      → Hoare
          (λ s. I s.log)
          (wait_loop env left slug expected deadline)
          (λ _ s. Reached expected s)
          (λ _ s. I s.log)
  unfolding wait_loop
  wait_loop-news zero slug expected deadline = Hoare-fail out_of_rounds (λ s p. p)
  wait_loop-news (suc left) slug expected deadline =
      wait_round-news _ slug expected deadline (wait_loop-news left slug expected deadline)

  pub wait_for_state-news :
      (slug : Text) (expected : List Text) (timeout : ℕ)
      → Hoare
          (λ s. I s.log)
          (wait_for_state env slug expected timeout)
          (λ _ s. Reached expected s)
          (λ _ s. I s.log)
  unfolding wait_for_state
  wait_for_state-news slug expected timeout =
      Hoare-bind _ _ (Keeps-Hoare I (Keeps-gets env.monotonic))
        (λ now. wait_loop-news _ slug expected _)

  pub stop_if_running-down :
      (slug : Text)
      → Hoare
          (λ s. I s.log)
          (stop_if_running env slug)
          (λ _ s. I s.log × (is_down s.log ≡ true))
          (λ _ s. I s.log)
  unfolding stop_if_running
  stop_if_running-down slug = Hoare-bind _ _ (addon_state-IsNews slug) (λ state.
      Hoare-if (text_in state running_states) _ _
        (λ _.
          Hoare-pre (λ s. I s.log) _
            (Hoare-bind _ _ (Keeps-Hoare I (stop_addon-Keeps env stable slug)) (λ _.
              Hoare-bind _ _ (wait_for_state-news slug stopped_states 30000) (λ _.
                Hoare-pure true (λ s (found, member, p, news).
                  (p, news.down_news ∙ ap not (stopped-not_running found member))))))
            (λ s q. q.0))
        (λ idle. Hoare-pure false (λ s q. (q.0, q.1.down_news ∙ ap not idle))))
