-- ===== src/Preflight/Quiet.antt =====
-- When `require_quiet_management_window` of preflight.py returns.
use ha_nrf52840_ot_rcp_updat.Base.{
  ℕ, ◌+◌, ◌≡◌, ◌↔◌, refl, ap, List, [], ◌∷◌, Result, ok, err, All, length,
}
use ha_nrf52840_ot_rcp_updat.Models.Value.{Value, Fields}
use ha_nrf52840_ot_rcp_updat.Preflight.Actions.{
  PreflightError, active_work, started_work, busy_actions,
}
use ha_nrf52840_ot_rcp_updat.Preflight.Window.{
  Run, PreflightResult, onward, refuse, actions, quiet_actions, require_quiet_management_window,
}
use ha_nrf52840_ot_rcp_updat.Preflight.Idle.{IsIdle, All-idle_iff}
use ha_nrf52840_ot_rcp_updat.Preflight.Listing.{IsListing, IsListing-sound, IsListing-complete}

onward-ok :
    {W A B : Type 0} (first : Result PreflightError A × W) (next : A → Run W B) {value : B}
    {later : W}
    → onward first next ≡ (ok value, later)
    → (a : A) × (w : W) × (first ≡ (ok a, w)) × (next a w ≡ (ok value, later))
onward-ok (ok a, w) next h = (a, w, refl, h)
onward-ok (err e, w) next h = cc

refuse-none :
    (busy : List Fields) (e : PreflightError) {done : Unit {0}}
    → refuse busy e ≡ ok done
    → busy ≡ []
refuse-none [] e h = refl
refuse-none (action ∷ others) e h = cc

module _ {W : Type 0} (request : Run W Value) (sleep : ℕ → W → W) where
  -- A look that finds only idle actions.
  pub record IsCalm (s later : W) (present : List Fields) : Type 0 where
    pub document : Value
    pub asked : request s ≡ (ok document, later)
    pub listing : IsListing present document
    pub idle : All IsIdle present

  quiet_actions_sound :
      (failure : PreflightError) (s later : W) (present : List Fields)
      → quiet_actions request sleep failure s ≡ (ok present, later)
      → IsCalm s later present
  unfolding quiet_actions actions
  quiet_actions_sound failure s later present h =
      let (found, w1, e1, h1) = onward-ok _ _ h in
      let (document, w2, asked, h2) = onward-ok (request s) _ e1 in
      let (busy, w3, e3, h3) = onward-ok (busy_actions found, w1) _ h1 in
      let (_, w4, e4, h4) = onward-ok (refuse busy failure, w3) _ h3 in
      let none_busy = refuse-none busy failure (ap (λ r. r.0) e4) in
      let same : found ≡ present = cc in
      record {
        document = document;
        asked = cc;
        listing = IsListing-sound document present cc;
        idle = (All-idle_iff present).0 cc;
      }

  quiet_actions_complete :
      (failure : PreflightError) (s later : W) (present : List Fields)
      → IsCalm s later present
      → quiet_actions request sleep failure s ≡ (ok present, later)
  unfolding quiet_actions actions
  quiet_actions_complete failure s later present calm =
      rw
        (
          calm.asked,
          IsListing-complete calm.document present calm.listing,
          (All-idle_iff present).1 calm.idle,
        )
        refl

  -- Two looks, the second when the window has passed, that the result counts.
  pub record IsQuiet (window : ℕ) (s later : W) (result : PreflightResult) : Type 0 where
    pub middle : W
    pub first : List Fields
    pub second : List Fields
    pub calm_before : IsCalm s middle first
    pub calm_after : IsCalm (sleep window middle) later second
    pub counted :
        result ≡ record { quiet_window = window; actions_checked = length first + length second }

  -- The check of the window returns exactly when OTBR answers both requests, the second after
  -- sleeping for the window, with a list of actions that are all idle (of no management type, or
  -- with a status that is not one of the active ones), and it returns the window and how many
  -- actions both lists hold.
  pub require_quiet_management_window_iff :
      (window : ℕ) (s later : W) (result : PreflightResult)
      → (require_quiet_management_window request sleep window s ≡ (ok result, later))
        ↔ IsQuiet window s later result
  unfolding require_quiet_management_window
  require_quiet_management_window_iff window s later result = (sound, complete)
    where
      sound :
          require_quiet_management_window request sleep window s ≡ (ok result, later)
          → IsQuiet window s later result
      sound h =
          let (first, middle, e1, h1) = onward-ok (quiet_actions request sleep active_work s) _ h in
          let (second, w, e2, h2) =
            onward-ok (quiet_actions request sleep started_work (sleep window middle)) _ h1 in
          record {
            middle = middle;
            first = first;
            second = second;
            calm_before = quiet_actions_sound active_work s middle first e1;
            calm_after = quiet_actions_sound started_work (sleep window middle) later second cc;
            counted = cc;
          }

      complete :
          IsQuiet window s later result
          → require_quiet_management_window request sleep window s ≡ (ok result, later)
      complete quiet =
          rw
            (
              quiet_actions_complete active_work s quiet.middle quiet.first quiet.calm_before,
              quiet_actions_complete started_work (sleep window quiet.middle) later quiet.second
                  quiet.calm_after,
              quiet.counted,
            )
            refl
